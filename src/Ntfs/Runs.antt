-- ===== src/Ntfs/Runs.antt =====
-- src/fs/ntfs.rs: `parse_run_list`.
use Prim.Native.Nat.{bit_or}
use delta_os.Base.{
  ℕ, zero, suc, ◌-◌, ◌*◌, ◌/◌, ◌%◌, ◌^◌, ◌||◌, Option, none, some, List, [], ◌∷◌, if◌then◌else◌,
  ◌==◌, ltb, leb, length, drop,
}
use delta_os.Base.Bits.{shl_one}
use delta_os.Ntfs.{DataRun}
use delta_os.Ntfs.Bytes.{byte}

-- `word |= (byte as u64) << (i * 8)` for `count` bytes from the `i`th on. A shift of a 64-bit word is by
-- the count's lowest six bits, as in a release build.
unfoldable pub or_bytes : ℕ → ℕ → List ℕ → ℕ → ℕ
or_bytes zero i bytes word = word
or_bytes (suc count) i bytes word =
    or_bytes count (suc i) (drop 1 bytes)
      (bit_or word (byte bytes 0 * shl_one (i * 8 % 64) % 2 ^ 64))

-- The sign of an offset: `!0 << (offset_len * 8)`, where its last byte has bit 7.
unfoldable pub sign_extend : ℕ → List ℕ → ℕ → ℕ
sign_extend offset_len bytes word =
    if leb 128 (byte bytes (offset_len - 1))
    then bit_or word ((2 ^ 64 - 1) * shl_one (offset_len * 8 % 64) % 2 ^ 64)
    else word

-- A run behind its header, with the bytes after it; none where the code leaves the loop.
unfoldable pub parse_offset : ℕ → ℕ → List ℕ → Option (DataRun × List ℕ)
parse_offset offset_len run_length bytes =
    if offset_len == 0
    then some (record { run_length = run_length; offset = 0 }, bytes)
    else if ltb (length bytes) offset_len
    then none
    else some (
      record {
        run_length = run_length;
        offset = sign_extend offset_len bytes (or_bytes offset_len 0 bytes 0);
      },
      drop offset_len bytes,
    )

unfoldable pub parse_run : ℕ → List ℕ → Option (DataRun × List ℕ)
parse_run header bytes =
    let size_len : ℕ = header % 16 in
    let offset_len : ℕ = header / 16 % 16 in
    if size_len == 0 || ltb (length bytes) size_len
    then none
    else parse_offset offset_len (or_bytes size_len 0 bytes 0) (drop size_len bytes)

unfoldable pub push_run : DataRun → Option (List DataRun) → Option (List DataRun)
push_run run none = none
push_run run (some runs) = some (run ∷ runs)

unfoldable pub add_run :
    (List ℕ → Option (List DataRun)) → Option (DataRun × List ℕ) → Option (List DataRun)
add_run more none = some []
add_run more (some (run, rest)) = push_run run (more rest)

-- The loop of `parse_run_list`, on fuel; `bytes` is the data from the offset on.
unfoldable pub parse_runs : ℕ → List ℕ → Option (List DataRun)
parse_runs fuel [] = some []
parse_runs zero (header ∷ bytes) = none
parse_runs (suc fuel) (header ∷ bytes) =
    let rest = add_run (λ (b : List ℕ). parse_runs fuel b) (parse_run header bytes) in
    if header == 0 then some [] else rest

unfoldable pub parse_run_list : List ℕ → Option (List DataRun)
parse_run_list bytes = parse_runs (length bytes) bytes
