-- ===== src/Console/Numbers.antt =====
-- src/lib.rs: `parse_int` reads the decimal digits of a number.
use native.Mathlib.Numerals.{unary_clauses}
use mathlib.Core.List.{append-nil, append_assoc}
use delta_os.Base.{
  ℕ, zero, suc, ◌+◌, ◌*◌, ◌/◌, ◌%◌, ◌^◌, ◌≤◌, ◌<◌, ◌≡◌, refl, sym, ap, ◌∙◌, false, [], ◌∷◌, ◌++◌,
  none, some, if◌then◌else◌, ltb, if_elim, All, All-append, arith,
}
use delta_os.Base.Word.{u64_mod}
use delta_os.Vfs.Path.{Text, starts_with}
use delta_os.Console.{dec_digit, parse_digits, parse_int}

-- The decimal digits of a number below 10 to the power of the first argument.
unfoldable pub decimal : ℕ → ℕ → Text
decimal zero n = []
decimal (suc f) n =
    let front = decimal f (n / 10) in
    if ltb n 10 then (48 + n) ∷ [] else front ++ (48 + n % 10) ∷ []

dec_digit_lem : (d : ℕ) → d < 10 → dec_digit (48 + d) ≡ some d
unfolding dec_digit
dec_digit_lem d lt = ground arith

parse_digits_step :
    (c d r : ℕ) (s : Text)
    → dec_digit c ≡ some d
    → parse_digits 10 dec_digit (c ∷ s) r
      ≡ parse_digits 10 dec_digit s ((r * 10 % u64_mod + d) % u64_mod)
unfolding parse_digits
parse_digits_step c d r s e =
    ap
      (λ o. elim o [
        | none ↦ 0
        | some x ↦ parse_digits 10 dec_digit s ((r * 10 % u64_mod + x) % u64_mod)
      ])
      e

parse_digits-decimal :
    (f n : ℕ) (s : Text)
    → n < 10 ^ f
    → n < u64_mod
    → parse_digits 10 dec_digit (decimal f n ++ s) 0 ≡ parse_digits 10 dec_digit s n
unfolding decimal
parse_digits-decimal zero n s lt l =
    let zero_is : 0 ≡ n = omega arith in ap (parse_digits 10 dec_digit s) zero_is
parse_digits-decimal (suc f) n s lt l =
    if_elim (λ t. parse_digits 10 dec_digit (t ++ s) 0 ≡ parse_digits 10 dec_digit s n) (ltb n 10)
      (λ h.
        let value : (0 * 10 % u64_mod + n) % u64_mod ≡ n = omega arith in
        parse_digits_step (48 + n) n 0 s (dec_digit_lem n (ground (arith, h)))
        ∙ ap (parse_digits 10 dec_digit s) value)
      λ h.
        let value : (n / 10 * 10 % u64_mod + n % 10) % u64_mod ≡ n = omega arith in
        let power : 10 ^ suc f ≡ 10 ^ f * 10 = simp unary_clauses refl in
        ap (λ t. parse_digits 10 dec_digit t 0)
          (append_assoc (decimal f (n / 10)) ((48 + n % 10) ∷ []) s)
        ∙ (parse_digits-decimal f (n / 10) ((48 + n % 10) ∷ s) (omega arith) (omega arith)
            ∙ (parse_digits_step (48 + n % 10) (n % 10) (n / 10) s
                  (dec_digit_lem (n % 10) (omega arith))
                ∙ ap (parse_digits 10 dec_digit s) value))

-- A character of 48 to 57.
abbrev pub IsDigit : ℕ → Type 0
IsDigit c = (48 ≤ c) × (c ≤ 57)

pub decimal-All : (f n : ℕ) → All IsDigit (decimal f n)
unfolding decimal
decimal-All zero n = tt
decimal-All (suc f) n =
    if_elim (All IsDigit) (ltb n 10) (λ h. ((omega arith, ground (arith, h)), tt))
      λ h.
        All-append IsDigit (decimal f (n / 10)) _ (decimal-All f (n / 10))
          ((omega arith, omega arith), tt)

plain-IsDigit : (s : Text) (x : ℕ) → All IsDigit s → 57 < x → starts_with s (48 ∷ x ∷ []) ≡ false
unfolding starts_with
plain-IsDigit [] x a lt = refl
plain-IsDigit (c ∷ []) x a lt = ground arith
plain-IsDigit (c ∷ d ∷ s) x (b, (e, a)) lt = ground arith

-- `parse_int` reads a number of 64 bits back from its decimal digits.
pub parse_int-decimal : (f n : ℕ) → n < 10 ^ f → n < u64_mod → parse_int (decimal f n) ≡ n
unfolding parse_int parse_digits
parse_int-decimal f n lt l =
    rw
      (
        plain-IsDigit (decimal f n) 120 (decimal-All f n) (omega arith),
        plain-IsDigit (decimal f n) 88 (decimal-All f n) (omega arith),
      )
      (ap (λ t. parse_digits 10 dec_digit t 0) (sym (append-nil (decimal f n)))
        ∙ parse_digits-decimal f n [] lt l)
