-- ===== src/Ntfs/Parsing.antt =====
-- src/fs/ntfs.rs: the loops over run lists and attributes end.
use delta_os.Base.{
  ℕ, zero, suc, ◌+◌, ◌-◌, ◌/◌, ◌%◌, ◌≤◌, ◌<◌, ◌≡◌, ◌≢◌, refl, false, not, ◌||◌, Option, none, some,
  List, [], ◌∷◌, ◌++◌, ◌==◌, ltb, length, drop, if_elim, arith,
}
use delta_os.Ntfs.{DataRun, NtfsAttribute, mft_record_size, mft_record_signature}
use delta_os.Ntfs.Bytes.{le_word}
use delta_os.Ntfs.Runs.{
  push_run, add_run, parse_offset, parse_run, parse_runs, parse_run_list, or_bytes,
}
use delta_os.Ntfs.Mft.{
  Parsed, parsed, panicked, out_of_fuel, empty_attribute, with_runs, fill_non_resident,
  parse_attribute, then_push, no_attribute, parse_attributes, to_record, parse_mft_record,
}

length-drop : (n : ℕ) (bytes : List ℕ) → length (drop n bytes) ≡ length bytes - n
length-drop zero bytes = omega arith
length-drop (suc n) [] = omega arith
length-drop (suc n) (b ∷ bytes) = omega (arith, length-drop n bytes)

-- What is left of the bytes behind a run.
abbrev Shorter : ℕ → Option (DataRun × List ℕ) → Type 0
Shorter n none = Unit
Shorter n (some (run, rest)) = length rest ≤ n

parse_offset-Shorter :
    (offset_len run_length : ℕ) (bytes : List ℕ)
    → Shorter (length bytes) (parse_offset offset_len run_length bytes)
unfolding parse_offset
parse_offset-Shorter offset_len run_length bytes =
    if_elim (Shorter (length bytes)) (offset_len == 0) (λ _. omega arith)
      λ _.
        if_elim (Shorter (length bytes)) (ltb (length bytes) offset_len) (λ _. tt)
          λ _. omega (arith, length-drop offset_len bytes)

Shorter-le : (m n : ℕ) (o : Option (DataRun × List ℕ)) → m ≤ n → Shorter m o → Shorter n o
Shorter-le m n none h s = tt
Shorter-le m n (some (run, rest)) h s = omega arith

parse_run-Shorter : (header : ℕ) (bytes : List ℕ) → Shorter (length bytes) (parse_run header bytes)
unfolding parse_run
parse_run-Shorter header bytes =
    let size_len : ℕ = header % 16 in
    let behind : List ℕ = drop size_len bytes in
    if_elim (Shorter (length bytes)) (size_len == 0 || ltb (length bytes) size_len) (λ _. tt)
      λ _.
        Shorter-le (length behind) (length bytes) _ (omega (arith, length-drop size_len bytes))
          (parse_offset-Shorter (header / 16 % 16) (or_bytes size_len 0 bytes 0) behind)

push_run-ends : (run : DataRun) (o : Option (List DataRun)) → o ≢ none → push_run run o ≢ none
unfolding push_run
push_run-ends run none h e = h refl
push_run-ends run (some runs) h e = grind (arith, e)

add_run-ends :
    (fuel : ℕ) (more : List ℕ → Option (List DataRun)) (o : Option (DataRun × List ℕ))
    → ((rest : List ℕ) → length rest ≤ fuel → more rest ≢ none)
    → Shorter fuel o
    → add_run more o ≢ none
unfolding add_run
add_run-ends fuel more none h s e = grind (arith, e)
add_run-ends fuel more (some (run, rest)) h s e = push_run-ends run (more rest) (h rest s) e

parse_runs_ends : (fuel : ℕ) (bytes : List ℕ) → length bytes ≤ fuel → parse_runs fuel bytes ≢ none
unfolding parse_runs
parse_runs_ends fuel [] h e = grind (arith, e)
parse_runs_ends zero (header ∷ bytes) h e = absurd (omega arith)
parse_runs_ends (suc fuel) (header ∷ bytes) h e =
    let ih : (rest : List ℕ) → length rest ≤ fuel → parse_runs fuel rest ≢ none =
      λ rest l. parse_runs_ends fuel rest l in
    if_elim (λ (o : Option (List DataRun)). o ≢ none) (header == 0) (λ _ e. grind (arith, e))
      (λ _.
        add_run-ends fuel (λ (b : List ℕ). parse_runs fuel b) (parse_run header bytes) ih
          (Shorter-le (length bytes) fuel _ (omega arith) (parse_run-Shorter header bytes)))
      e

pub parse_run_list_ends : (bytes : List ℕ) → parse_run_list bytes ≢ none
unfolding parse_run_list
parse_run_list_ends bytes = parse_runs_ends (length bytes) bytes (omega arith)

abbrev Ends : {A : Type 0} → Parsed A → Type 0
Ends p = p ≢ out_of_fuel

with_runs-Ends :
    (attr : NtfsAttribute) (bytes : List ℕ) (offset total_size : ℕ) (o : Option (List DataRun))
    → o ≢ none
    → Ends (with_runs attr bytes offset total_size o)
unfolding with_runs
with_runs-Ends attr bytes offset total_size none h e = h refl
with_runs-Ends attr bytes offset total_size (some runs) h e = grind (arith, e)

parse_attribute-Ends :
    (bytes : List ℕ) (offset total_size : ℕ) → Ends (parse_attribute bytes offset total_size)
unfolding parse_attribute fill_non_resident
parse_attribute-Ends bytes offset total_size =
    let attr : NtfsAttribute = empty_attribute bytes offset total_size in
    if_elim Ends attr.non_resident
      (λ _.
        if_elim Ends (ltb (length bytes) (offset + 0x40)) (λ _ e. grind (arith, e))
          λ _.
            if_elim Ends (ltb total_size (le_word bytes (offset + 0x20) 2))
              (λ _ e. grind (arith, e))
              λ _. with_runs-Ends attr bytes offset total_size _ (parse_run_list_ends _))
      (λ _ e. grind (arith, e))

then_push-Ends :
    (more : List NtfsAttribute → Parsed (List NtfsAttribute)) (attributes : List NtfsAttribute)
    (p : Parsed NtfsAttribute)
    → ((l : List NtfsAttribute) → Ends (more l))
    → Ends p
    → Ends (then_push more attributes p)
unfolding then_push
then_push-Ends more attributes (parsed attr) h k e = h (attributes ++ attr ∷ []) e
then_push-Ends more attributes panicked h k e = grind (arith, e)
then_push-Ends more attributes out_of_fuel h k e = k refl

-- An attribute that the loop takes is not empty.
attribute_size :
    (bytes : List ℕ) (offset : ℕ)
    → no_attribute bytes offset ≡ false
    → 0 < le_word bytes (offset + 4) 4
unfolding no_attribute
attribute_size bytes offset e = ground (arith, e)

parse_attributes-Ends :
    (fuel : ℕ) (bytes : List ℕ) (offset : ℕ) (attributes : List NtfsAttribute)
    → length bytes ≤ offset + fuel
    → Ends (parse_attributes (suc fuel) bytes offset attributes)
unfolding parse_attributes
parse_attributes-Ends zero bytes offset attributes h =
    let out : ltb (offset + 4) (length bytes) ≡ false = ground arith in
    rw out (λ e. grind (arith, e))
parse_attributes-Ends (suc fuel) bytes offset attributes h =
    let total_size : ℕ = le_word bytes (offset + 4) 4 in
    if_elim Ends (not (ltb (offset + 4) (length bytes)) || no_attribute bytes offset)
      (λ _ e. grind (arith, e))
      λ inside.
        then_push-Ends (λ more. parse_attributes (suc fuel) bytes (offset + total_size) more)
          attributes (parse_attribute bytes offset total_size)
          (λ l.
            parse_attributes-Ends fuel bytes (offset + total_size) l
              (omega (arith, attribute_size bytes offset (ground (arith, inside)))))
          (parse_attribute-Ends bytes offset total_size)

to_record-Ends :
    (bytes : List ℕ) (p : Parsed (List NtfsAttribute)) → Ends p → Ends (to_record bytes p)
unfolding to_record
to_record-Ends bytes (parsed attributes) h e = grind (arith, e)
to_record-Ends bytes panicked h e = grind (arith, e)
to_record-Ends bytes out_of_fuel h e = h refl

-- For every record's bytes, `parse_mft_record` comes to an end: a record, an error, or the panic of a
-- slice whose start is behind its end. The fuel of its loops, one round more than there are bytes for
-- the attributes and one for each byte of a run list, is enough.
pub parse_mft_record_ends : (bytes : List ℕ) → parse_mft_record bytes ≢ out_of_fuel
unfolding parse_mft_record
parse_mft_record_ends bytes =
    let fuel : length bytes + 1 ≡ suc (length bytes) = omega arith in
    if_elim Ends (ltb (length bytes) mft_record_size) (λ _ e. grind (arith, e))
      λ _.
        if_elim Ends (not (le_word bytes 0 4 == mft_record_signature)) (λ _ e. grind (arith, e))
          λ _. to_record-Ends bytes _ (
            rw fuel
              (parse_attributes-Ends (length bytes) bytes (le_word bytes 0x14 2) [] (omega arith)))
