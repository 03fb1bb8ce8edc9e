-- ===== src/Vmm/Reached.antt =====
-- src/memory/vmm.rs: the tables on the walk of an address, and the change of one entry of theirs.
use delta_os.Base.{
  ℕ, suc, ◌+◌, ◌*◌, ◌<◌, ◌≡◌, ◌≢◌, refl, sym, ap, subst, ◌∙◌, ◌⊎◌, inl, inr, true, false, ◌==◌,
  ==_iff, Bool-cases, arith,
}
use delta_os.Vmm.{Machine, get_entry}
use delta_os.Vmm.Lookup.{slot, on, target, stops, lookup}
use delta_os.Vmm.Tree.{Layout, IsTree, path, path_step, slot_lt, Agrees}

-- `t` is the table of a level that the walk of an address comes to.
pub data Reached (m : Machine) (root virt : ℕ) : ℕ → ℕ → Type 0 where
  top : Reached m root virt 3 root
  down :
      {l t : ℕ}
      → Reached m root virt (suc l) t
      → on (get_entry m t (slot (suc l) virt)) ≡ true
      → stops (suc l) (get_entry m t (slot (suc l) virt)) ≡ false
      → Reached m root virt l (target (get_entry m t (slot (suc l) virt)))

pub Reached-lt_four : {m : Machine} {root virt l t : ℕ} → Reached m root virt l t → l < 4
Reached-lt_four top = omega arith
Reached-lt_four (down r a b) = omega (arith, Reached-lt_four r)

pub Reached-path :
    (y : Layout) {m : Machine} {root virt l t : ℕ}
    → IsTree y root m
    → Reached m root virt l t
    → (y.level t ≡ l) × (y.prefix t ≡ path l virt)
unfolding path
Reached-path y tree top = (tree.root_level, tree.root_prefix)
Reached-path y {virt = virt} tree (down {l = l} {t = t} r a b) =
    let (e, p) = Reached-path y tree r in
    let h = Reached-lt_four r in
    let (c, d) = tree.child t (slot (suc l) virt) l e (omega arith) (slot_lt (suc l) virt) a b in
    (c, d ∙ (ap (λ (z : ℕ). z * 512 + slot (suc l) virt) p ∙ sym (path_step l virt (omega arith))))

lookup_down :
    (m : Machine) (l t a virt : ℕ)
    → slot (suc l) a ≡ slot (suc l) virt
    → on (get_entry m t (slot (suc l) virt)) ≡ true
    → stops (suc l) (get_entry m t (slot (suc l) virt)) ≡ false
    → lookup (suc l) m t a ≡ lookup l m (target (get_entry m t (slot (suc l) virt))) a
unfolding lookup
lookup_down m l t a virt same p q = rw (same, p, q) refl

-- Another address with the same entries above the table comes to it as well, and is translated from
-- there on.
pub Reached-lookup :
    {m : Machine} {root virt l t : ℕ} (a : ℕ)
    → ((k : ℕ) → k < 4 → slot k a ≡ slot k virt)
    → Reached m root virt l t
    → lookup 3 m root a ≡ lookup l m t a
Reached-lookup a same top = refl
Reached-lookup {m = m} {virt = virt} a same (down {l = l} {t = t} r p q) =
    Reached-lookup a same r ∙ lookup_down m l t a virt (same (suc l) (Reached-lt_four r)) p q

differs :
    (y : Layout) (m : Machine) (t i l u j : ℕ)
    → ((k : ℕ) → y.level t ≡ suc k → on (get_entry m t i) ≡ false)
    → y.level u ≡ suc l
    → on (get_entry m u j) ≡ true
    → (u ≢ t) ⊎ (j ≢ i)
differs y m t i l u j off e a = elim (Bool-cases (u == t)) [
  | inl p ↦ inr λ q. clash ((==_iff _ _).0 p) q
  | inr p ↦ inl λ q. ground arith
]
  where
    clash : u ≡ t → j ≢ i
    clash p q =
        let b : on (get_entry m t i) ≡ true =
          subst (λ (v : ℕ). on (get_entry m v i) ≡ true) p
            (subst (λ (k : ℕ). on (get_entry m u k) ≡ true) q a) in
        let c : on (get_entry m t i) ≡ false = off l (ap y.level (sym p) ∙ e) in grind (arith, b, c)

-- The walk of an address stays where the changed entry was not present or is of the lowest level.
pub Reached-Agrees :
    (y : Layout) {m m' : Machine} {root virt l u : ℕ} (t i : ℕ)
    → IsTree y root m
    → Agrees y t i m m'
    → ((k : ℕ) → y.level t ≡ suc k → on (get_entry m t i) ≡ false)
    → Reached m root virt l u
    → Reached m' root virt l u
Reached-Agrees y t i tree agrees off top = top
Reached-Agrees y {m = m} {m' = m'} {root = root} {virt = virt} t i tree agrees off
      (down {l = l} {t = u} r a b) =
    let (e, _) = Reached-path y tree r in
    let apart : (u ≢ t) ⊎ (slot (suc l) virt ≢ i) =
      differs y m t i l u (slot (suc l) virt) off e a in
    let same =
      agrees u (slot (suc l) virt) (omega (arith, e, Reached-lt_four r)) (slot_lt (suc l) virt)
        apart in
    let r' = Reached-Agrees y t i tree agrees off r in
    subst (λ (z : ℕ). Reached m' root virt l (target z)) same (down r' (rw same a) (rw same b))
