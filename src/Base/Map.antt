-- ===== src/Base/Map.antt =====
-- `BTreeMap`: the entries in the order of their keys.
use Prim.Native.Nat.{ℕ}
use Prim.Native.String.{String, compare}
use mathlib.Core.Path.{◌≡◌, refl, sym, subst, ◌∙◌}
use mathlib.Core.Logic.{◌↔◌, ◌≢◌, inl, inr}
use mathlib.Core.Bool.{Bool, true, false, not}
use mathlib.Core.List.{List, [], ◌∷◌}
use mathlib.Core.Option.{Option, none, some, some-injective}
use native.Mathlib.Omega.{arith}
use text.Mathlib.Text.{is_lt, ◌==◌ as str_eq}
use text.Mathlib.TextEquality.{eq_iff}
use delta_os.Base.Tests.{if◌then◌else◌, ltb, ◌==◌, ==_iff, Bool-cases}
use delta_os.Base.Lists.{retain, All}

pub record Key (K : Type 0) : Type 0 where
  pub same : K → K → Bool
  pub same_iff : (a b : K) → (same a b ≡ true) ↔ (a ≡ b)
  pub before : K → K → Bool

instance abbrev pub nat_key : Key ℕ
nat_key = record { same = ◌==◌; same_iff = ==_iff; before = ltb }

instance abbrev pub string_key : Key String
string_key = record { same = str_eq; same_iff = eq_iff; before = λ a b. is_lt (compare a b) }

abbrev pub Map : Type 0 → Type 0 → Type 0
Map K V = List (K × V)

module _ {K : Type 0} ⦃key : Key K⦄ where
  pub same_refl : (k : K) → key.same k k ≡ true
  same_refl k = (key.same_iff k k).1 refl

  pub same_ne : (j k : K) → j ≢ k → key.same j k ≡ false
  same_ne j k ne = elim (Bool-cases (key.same j k)) [
    | inl e ↦ absurd (ne ((key.same_iff j k).0 e))
    | inr e ↦ e
  ]

module _ {K V : Type 0} ⦃key : Key K⦄ where
  -- `BTreeMap::get`
  unfoldable pub get : Map K V → K → Option V
  get [] k = none
  get ((j, v) ∷ m) k = let rest = get m k in if key.same j k then some v else rest

  -- `BTreeMap::insert`
  unfoldable pub insert : Map K V → K → V → Map K V
  insert [] k v = (k, v) ∷ []
  insert ((j, w) ∷ m) k v =
      let rest = insert m k v in
      if key.same j k
      then (k, v) ∷ m
      else if key.before j k
      then (j, w) ∷ rest
      else (k, v) ∷ (j, w) ∷ m

  -- `BTreeMap::remove`
  unfoldable pub remove : Map K V → K → Map K V
  remove m k = retain (λ (e : K × V). not (key.same e.0 k)) m

  pub get-insert_self : (m : Map K V) (k : K) (v : V) → get (insert m k v) k ≡ some v
  unfolding get insert
  get-insert_self [] k v = rw (same_refl k) refl
  get-insert_self ((j, w) ∷ m) k v = ground (arith, same_refl k, get-insert_self m k v)

  pub get-insert_ne : (m : Map K V) (j k : K) (v : V) → j ≢ k → get (insert m k v) j ≡ get m j
  unfolding get insert
  get-insert_ne [] j k v ne = rw (same_ne k j (λ e. ne (sym e))) refl
  get-insert_ne ((i, w) ∷ m) j k v ne =
      let a = same_ne k j (λ e. ne (sym e)) in
      let b = get-insert_ne m j k v ne in
      elim (Bool-cases (key.same i k)) [
        | inl e ↦ let c : key.same i j ≡ false = rw ((key.same_iff i k).0 e) a in rw (e, a, c) refl
        | inr e ↦ elim (Bool-cases (key.before i k)) [
          | inl f ↦ rw (e, f, b) refl
          | inr f ↦ rw (e, f, a) refl
        ]
      ]

  pub get-remove_self : (m : Map K V) (k : K) → get (remove m k) k ≡ none
  unfolding get remove
  get-remove_self [] k = refl
  get-remove_self ((j, w) ∷ m) k = elim (Bool-cases (key.same j k)) [
    | inl e ↦ rw e (get-remove_self m k)
    | inr e ↦ rw e (rw e (get-remove_self m k))
  ]

  pub get-remove_ne : (m : Map K V) (j k : K) → j ≢ k → get (remove m k) j ≡ get m j
  unfolding get remove
  get-remove_ne [] j k ne = refl
  get-remove_ne ((i, w) ∷ m) j k ne =
      let b = get-remove_ne m j k ne in
      elim (Bool-cases (key.same i k)) [
        | inl e ↦
            let c : key.same i j ≡ false =
              rw ((key.same_iff i k).0 e) (same_ne k j (λ f. ne (sym f))) in
            rw (e, c) b
        | inr e ↦ rw (e, b) refl
      ]

  -- A predicate of every entry.
  pub All-insert {ℓ} :
      (P : K × V → Type ℓ) (m : Map K V) (k : K) (v : V) → P (k, v) → All P m → All P (insert m k v)
  unfolding insert
  All-insert P [] k v p a = (p, tt)
  All-insert P ((j, w) ∷ m) k v p a = ground (arith, All-insert P m k v p a.1)

  pub All-get {ℓ} :
      (P : V → Type ℓ) (m : Map K V) (k : K) (v : V)
      → get m k ≡ some v
      → All (λ (e : K × V). P e.1) m
      → P v
  unfolding get
  All-get P [] k v e a = absurd (grind (arith, e))
  All-get P ((j, w) ∷ m) k v e a = elim (Bool-cases (key.same j k)) [
    | inl s ↦ subst P (some-injective _ _ (sym (here s) ∙ e)) a.0
    | inr s ↦ All-get P m k v (sym (there s) ∙ e) a.1
  ]
    where
      here : key.same j k ≡ true → get ((j, w) ∷ m) k ≡ some w
      here s = rw s refl

      there : key.same j k ≡ false → get ((j, w) ∷ m) k ≡ get m k
      there s = rw s refl
