-- ===== src/Module/Life.antt =====
-- src/module/manager.rs: what every call keeps of the table of modules.
use Prim.Native.String.{String}
use text.Mathlib.Text.{◌==◌ as str_eq}
use text.Mathlib.TextEquality.{eq_iff}
use delta_os.Base.{
  ℕ, ◌+◌, ◌^◌, ◌<◌, ◌≡◌, ◌≢◌, refl, sym, ap, subst, ◌∙◌, ◌⊎◌, inl, inr, Bool, true, false, [], ◌∷◌,
  some, ◌==◌, ==_iff, Bool-cases, arith,
}
use mathlib.Core.Option.{some-injective}
use delta_os.Base.Word.{add64}
use delta_os.Base.Map.{
  Map, nat_key, get, insert, remove, get-insert_self, get-insert_ne, get-remove_self, get-remove_ne,
}
use delta_os.Module.{
  loaded, running, ModuleInfo, Manager, any_module, fresh_info, add_module, set_state,
}

-- What holds of a module at its id: it is loaded or running, and has no dependencies and no code.
unfoldable pub Plain : ℕ → ℕ → ModuleInfo → Type 0
Plain next k info =
    (k < next)
    × (info.id ≡ k)
    × ((info.state ≡ loaded) ⊎ (info.state ≡ running))
    × (info.dependencies ≡ [])
    × (info.init_addr ≡ 0)

unfoldable pub AllPlain : ℕ → Map ℕ ModuleInfo → Type 0
AllPlain next modules = (k : ℕ) (info : ModuleInfo) → get modules k ≡ some info → Plain next k info

-- No two modules have one name.
unfoldable pub Distinct : Map ℕ ModuleInfo → Type 0
Distinct modules =
    (j k : ℕ) (a b : ModuleInfo)
    → get modules j ≡ some a
    → get modules k ≡ some b
    → a.name ≡ b.name
    → j ≡ k

unfoldable pub IsManager : Manager → Type 0
IsManager m = AllPlain m.next_module_id m.modules × Distinct m.modules

any_module_none :
    (p : ModuleInfo → Bool) (modules : Map ℕ ModuleInfo) (k : ℕ) (info : ModuleInfo)
    → any_module p modules ≡ false
    → get modules k ≡ some info
    → p info ≡ false
unfolding any_module get
any_module_none p [] k info e h = absurd (grind (arith, h))
any_module_none p ((j, i) ∷ modules) k info e h = elim (Bool-cases (j == k)) [
  | inl s ↦
      subst (λ (x : ModuleInfo). p x ≡ false) (some-injective _ _ (sym (here s) ∙ h))
        (ground (arith, e))
  | inr s ↦ any_module_none p modules k info (ground (arith, e)) (sym (there s) ∙ h)
]
  where
    here : (j == k) ≡ true → get ((j, i) ∷ modules) k ≡ some i
    here s = rw s refl

    there : (j == k) ≡ false → get ((j, i) ∷ modules) k ≡ get modules k
    there s = rw s refl

-- A read after a write: the entry written, at its key, or another's.
get-insert_cases :
    (modules : Map ℕ ModuleInfo) (k j : ℕ) (v a : ModuleInfo)
    → get (insert modules k v) j ≡ some a
    → ((j ≡ k) × (a ≡ v)) ⊎ ((j ≢ k) × (get modules j ≡ some a))
get-insert_cases modules k j v a h = elim (Bool-cases (j == k)) [
  | inl s ↦
      let e = (==_iff j k).0 s in
      inl (
        e,
        some-injective _ _
            (sym h ∙ (ap (get (insert modules k v)) e ∙ get-insert_self modules k v)),
      )
  | inr s ↦ let ne : j ≢ k = λ e. ground arith in inr (ne, sym (get-insert_ne modules j k v ne) ∙ h)
]

get-remove_cases :
    (modules : Map ℕ ModuleInfo) (k j : ℕ) (a : ModuleInfo)
    → get (remove modules k) j ≡ some a
    → get modules j ≡ some a
get-remove_cases modules k j a h = elim (Bool-cases (j == k)) [
  | inl s ↦
      let e = (==_iff j k).0 s in
      let gone = ap (get (remove modules k)) e ∙ get-remove_self modules k in
      absurd (grind (arith, h, gone))
  | inr s ↦ sym (get-remove_ne modules j k (λ e. ground arith)) ∙ h
]

pub IsManager-remove :
    (m : Manager) (id : ℕ) → IsManager m → IsManager (record m { modules = remove m.modules id })
unfolding IsManager AllPlain Distinct
IsManager-remove m id (plain, distinct) = (
  λ k info h. plain k info (get-remove_cases m.modules id k info h),
  λ j k a b h g.
      distinct j k a b (get-remove_cases m.modules id j a h) (get-remove_cases m.modules id k b g),
)

pub IsManager-run :
    (m : Manager) (id : ℕ) (info : ModuleInfo)
    → get m.modules id ≡ some info
    → IsManager m
    → IsManager (set_state m id info running)
unfolding IsManager AllPlain Distinct Plain set_state
IsManager-run m id info e (plain, distinct) = (plain', distinct')
  where
    new : ModuleInfo
    new = record info { state = running }

    plain' :
        (k : ℕ) (i : ModuleInfo)
        → get (insert m.modules id new) k ≡ some i
        → Plain m.next_module_id k i
    plain' k i h = elim (get-insert_cases m.modules id k new i h) [
      | inl (p, q) ↦ let (a, b, c, d, f) = plain id info e in rw (p, q) (a, b, inr refl, d, f)
      | inr (_, g) ↦ plain k i g
    ]

    old_name :
        (k : ℕ) (i : ModuleInfo)
        → get (insert m.modules id new) k ≡ some i
        → (i' : ModuleInfo) × (get m.modules k ≡ some i') × (i.name ≡ i'.name)
    old_name k i h = elim (get-insert_cases m.modules id k new i h) [
      | inl (p, q) ↦ (info, ap (get m.modules) p ∙ e, ap (λ (x : ModuleInfo). x.name) q)
      | inr (_, g) ↦ (i, g, refl)
    ]

    distinct' :
        (j k : ℕ) (a b : ModuleInfo)
        → get (insert m.modules id new) j ≡ some a
        → get (insert m.modules id new) k ≡ some b
        → a.name ≡ b.name
        → j ≡ k
    distinct' j k a b h g n =
        let (a', h', p) = old_name j a h in
        let (b', g', q) = old_name k b g in distinct j k a' b' h' g' (sym p ∙ (n ∙ q))

pub IsManager-add :
    (m : Manager) (name : String)
    → m.next_module_id + 1 < 2 ^ 64
    → any_module (λ (info : ModuleInfo). str_eq info.name name) m.modules ≡ false
    → IsManager m
    → IsManager (add_module m name)
unfolding IsManager AllPlain Distinct Plain add_module fresh_info
IsManager-add m name bound fresh (plain, distinct) = (plain', distinct')
  where
    new : ModuleInfo
    new = fresh_info m.next_module_id name

    plain' :
        (k : ℕ) (i : ModuleInfo)
        → get (insert m.modules m.next_module_id new) k ≡ some i
        → Plain (add64 m.next_module_id 1) k i
    plain' k i h = elim (get-insert_cases m.modules m.next_module_id k new i h) [
      | inl (p, q) ↦ rw (p, q) (omega arith, refl, inl refl, refl, refl)
      | inr (_, g) ↦ let (a, b, c, d, f) = plain k i g in (omega arith, b, c, d, f)
    ]

    other_name : (k : ℕ) (i : ModuleInfo) → get m.modules k ≡ some i → i.name ≢ name
    other_name k i g q =
        let no = any_module_none (λ (x : ModuleInfo). str_eq x.name name) m.modules k i fresh g in
        let yes = (eq_iff i.name name).1 q in grind (arith, no, yes)

    distinct' :
        (j k : ℕ) (a b : ModuleInfo)
        → get (insert m.modules m.next_module_id new) j ≡ some a
        → get (insert m.modules m.next_module_id new) k ≡ some b
        → a.name ≡ b.name
        → j ≡ k
    distinct' j k a b h g n = elim (get-insert_cases m.modules m.next_module_id j new a h) [
      | inl (p, q) ↦ elim (get-insert_cases m.modules m.next_module_id k new b g) [
        | inl (p', q') ↦ p ∙ sym p'
        | inr (_, g') ↦ absurd (other_name k b g' (sym n ∙ ap (λ (x : ModuleInfo). x.name) q))
      ]
      | inr (_, h') ↦ elim (get-insert_cases m.modules m.next_module_id k new b g) [
        | inl (p', q') ↦ absurd (other_name j a h' (n ∙ ap (λ (x : ModuleInfo). x.name) q'))
        | inr (_, g') ↦ distinct j k a b h' g' n
      ]
    ]
