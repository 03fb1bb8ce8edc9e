-- ===== src/Ntfs/RoundTrip.antt =====
-- src/fs/ntfs.rs: a run list that was written is read back.
use delta_os.Base.{
  ℕ, zero, suc, ◌+◌, ◌*◌, ◌/◌, ◌%◌, ◌≤◌, ◌<◌, ◌≡◌, refl, ap, ◌∙◌, false, ◌||◌, some, List, [], ◌∷◌,
  ◌++◌, map, ◌==◌, ltb, length, All, arith,
}
use delta_os.Base.Bits.{shl_one}
use delta_os.Ntfs.Runs.{
  or_bytes, parse_offset, parse_run, add_run, push_run, parse_runs, parse_run_list,
}
use delta_os.Ntfs.RunLists.{
  to_le, meant, RunCode, run_of, encode_run, encode, IsRun, or_bytes-to_le, length-to_le,
  drop-to_le, sign_extend-meant, first_place,
}

append_assoc : (xs ys zs : List ℕ) → (xs ++ ys) ++ zs ≡ xs ++ (ys ++ zs)
append_assoc [] ys zs = refl
append_assoc (x ∷ xs) ys zs = ap (◌∷◌ x) (append_assoc xs ys zs)

-- The word that the loop makes of a number's bytes.
or_bytes_word :
    (count n : ℕ) (rest : List ℕ)
    → count ≤ 8
    → n < shl_one (count * 8)
    → or_bytes count 0 (to_le count n ++ rest) 0 ≡ n
or_bytes_word count n rest h l =
    or_bytes-to_le count 0 n 0 rest (omega arith) l first_place.1 ∙ first_word n
  where
    first_word : (k : ℕ) → 0 + shl_one (0 * 8) * k ≡ k
    first_word k = rw (first_place.0) (omega arith)

meant_nothing : (n : ℕ) → n < shl_one (0 * 8) → meant 0 n ≡ 0
unfolding meant shl_one
meant_nothing n l = ground arith

parse_offset-to_le :
    (offset_len clusters spelled : ℕ) (rest : List ℕ)
    → offset_len ≤ 7
    → spelled < shl_one (offset_len * 8)
    → parse_offset offset_len clusters (to_le offset_len spelled ++ rest)
      ≡ some (record { run_length = clusters; offset = meant offset_len spelled }, rest)
unfolding parse_offset
parse_offset-to_le zero clusters spelled rest h l =
    rw (meant_nothing spelled l, drop-to_le 0 spelled rest) refl
parse_offset-to_le (suc c) clusters spelled rest h l =
    let len = length-to_le (suc c) spelled rest in
    let enough : ltb (length (to_le (suc c) spelled ++ rest)) (suc c) ≡ false =
      ground (arith, len) in
    let some_bytes : (suc c == 0) ≡ false = ground arith in
    rw
      (
        some_bytes,
        enough,
        or_bytes_word (suc c) spelled rest (omega arith) l,
        drop-to_le (suc c) spelled rest,
        sign_extend-meant (suc c) spelled rest (omega arith) h l,
      )
      refl

parse_run-encode :
    (c : RunCode) (rest : List ℕ)
    → IsRun c
    → parse_run
        (c.size_len + 16 * c.offset_len)
        ((to_le c.size_len c.clusters ++ to_le c.offset_len c.spelled) ++ rest)
      ≡ some (run_of c, rest)
unfolding parse_run IsRun
parse_run-encode c rest (pos, size, off, l, k) =
    let tail : List ℕ = to_le c.offset_len c.spelled ++ rest in
    let a : (c.size_len + 16 * c.offset_len) % 16 ≡ c.size_len = omega arith in
    let b : (c.size_len + 16 * c.offset_len) / 16 % 16 ≡ c.offset_len = omega arith in
    let len = length-to_le c.size_len c.clusters tail in
    let enough : (c.size_len == 0 || ltb (length (to_le c.size_len c.clusters ++ tail)) c.size_len)
        ≡ false =
      ground (arith, len) in
    rw
      (
        append_assoc (to_le c.size_len c.clusters) (to_le c.offset_len c.spelled) rest,
        a,
        b,
        enough,
        or_bytes_word c.size_len c.clusters tail size l,
        drop-to_le c.size_len c.clusters tail,
      )
      (parse_offset-to_le c.offset_len c.clusters c.spelled rest off k)

header_nonzero : (c : RunCode) → IsRun c → (c.size_len + 16 * c.offset_len == 0) ≡ false
unfolding IsRun
header_nonzero c valid = let pos = valid.0 in ground arith

length-body :
    (c : RunCode) (rest : List ℕ)
    → length ((to_le c.size_len c.clusters ++ to_le c.offset_len c.spelled) ++ rest)
      ≡ c.size_len + (c.offset_len + length rest)
length-body c rest =
    ap length (append_assoc (to_le c.size_len c.clusters) (to_le c.offset_len c.spelled) rest)
    ∙ (length-to_le c.size_len c.clusters _
        ∙ ap (λ (n : ℕ). c.size_len + n) (length-to_le c.offset_len c.spelled rest))

parse_runs-encode :
    (fuel : ℕ) (codes : List RunCode)
    → length (encode codes) ≤ fuel
    → All IsRun codes
    → parse_runs fuel (encode codes) ≡ some (map run_of codes)
unfolding parse_runs encode encode_run add_run push_run
parse_runs-encode zero [] h valid = absurd (omega arith)
parse_runs-encode zero (c ∷ codes) h valid = absurd (omega arith)
parse_runs-encode (suc fuel) [] h valid = refl
parse_runs-encode (suc fuel) (c ∷ codes) h valid =
    let body : List ℕ = to_le c.size_len c.clusters ++ to_le c.offset_len c.spelled in
    let rest : List ℕ = encode codes in
    let here = parse_run-encode c rest valid.0 in
    let sizes = length-body c rest in
    let later = parse_runs-encode fuel codes (omega (arith, sizes)) valid.1 in
    let header : (c.size_len + 16 * c.offset_len == 0) ≡ false = header_nonzero c valid.0 in
    rw (header, here, later) refl

-- For every list of runs, each of 1 to 8 bytes for its count of clusters and at most 7 for its offset,
-- with both numbers within their bytes: `parse_run_list` reads the list's encoding and gives the runs,
-- an offset whose highest bit is set as the negative number that it stands for.
pub parse_run_list-encode :
    (codes : List RunCode)
    → All IsRun codes
    → parse_run_list (encode codes) ≡ some (map run_of codes)
unfolding parse_run_list
parse_run_list-encode codes valid =
    parse_runs-encode (length (encode codes)) codes (omega arith) valid
