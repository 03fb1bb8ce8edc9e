-- ===== src/Vfs/Path.antt =====
-- src/fs/vfs.rs: paths, as the bytes of their text.
use delta_os.Base.{
  ℕ, ◌≡◌, refl, ap₂, subst, ◌↔◌, Bool, true, false, ◌&&◌, List, [], ◌∷◌, if◌then◌else◌, ◌==◌, ltb,
  ==_iff, arith,
}
use delta_os.Base.Map.{Key}

abbrev pub Text : Type 0
Text = List ℕ

abbrev pub slash : ℕ
slash = 47

-- The path "/".
abbrev pub root_path : Text
root_path = slash ∷ []

abbrev pub is_empty : Text → Bool
is_empty [] = true
is_empty (c ∷ s) = false

abbrev pub text_eq : Text → Text → Bool
text_eq [] [] = true
text_eq [] (d ∷ t) = false
text_eq (c ∷ s) [] = false
text_eq (c ∷ s) (d ∷ t) = c == d && text_eq s t

-- The order of bytes, a text behind its prefixes.
abbrev pub text_before : Text → Text → Bool
text_before s [] = false
text_before [] (d ∷ t) = true
text_before (c ∷ s) (d ∷ t) =
    let rest = text_before s t in if ltb c d then true else if c == d then rest else false

-- `s.starts_with(t)`
unfoldable pub starts_with : Text → Text → Bool
starts_with s [] = true
starts_with [] (d ∷ t) = false
starts_with (c ∷ s) (d ∷ t) = c == d && starts_with s t

-- `path.split('/')`: the parts between slashes, at least one.
unfoldable pub join_first : ℕ → List Text → List Text
join_first c [] = (c ∷ []) ∷ []
join_first c (part ∷ parts) = (c ∷ part) ∷ parts

unfoldable pub split : Text → List Text
unfolding join_first
split [] = [] ∷ []
split (c ∷ s) = let rest = split s in if c == slash then [] ∷ rest else join_first c rest

text_eq_sound : (s t : Text) → text_eq s t ≡ true → s ≡ t
text_eq_sound [] [] e = refl
text_eq_sound [] (d ∷ t) e = absurd (grind (arith, e))
text_eq_sound (c ∷ s) [] e = absurd (grind (arith, e))
text_eq_sound (c ∷ s) (d ∷ t) e =
    ap₂ ◌∷◌ ((==_iff c d).0 (ground (arith, e))) (text_eq_sound s t (ground (arith, e)))

text_eq_refl : (s : Text) → text_eq s s ≡ true
text_eq_refl [] = refl
text_eq_refl (c ∷ s) = ground (arith, text_eq_refl s)

pub text_eq_iff : (s t : Text) → (text_eq s t ≡ true) ↔ (s ≡ t)
text_eq_iff s t =
    (text_eq_sound s t, λ e. subst (λ (u : Text). text_eq s u ≡ true) e (text_eq_refl s))

instance abbrev pub text_key : Key Text
text_key = record { same = text_eq; same_iff = text_eq_iff; before = text_before }
