-- ===== src/Vmm/Tree.antt =====
-- src/memory/vmm.rs: the tables as a tree. A layout gives each table its level and the entries that
-- lead to it, which keeps the tables of different addresses apart.
use delta_os.Base.{
  ℕ, zero, suc, ◌+◌, ◌*◌, ◌%◌, ◌≤◌, ◌<◌, ◌≡◌, ◌≢◌, refl, sym, ap, subst, ◌∙◌, ◌⊎◌, inl, inr, true,
  false, ◌==◌, ==_iff, Bool-cases, arith,
}
use delta_os.Vmm.{Machine, get_entry, vmm_pages_end}
use delta_os.Vmm.Lookup.{slot, on, target, stops, lookup}

-- A number from 4 on is the level of what is no table.
pub record Layout : Type 0 where
  pub level : ℕ → ℕ
  pub prefix : ℕ → ℕ

-- The tables below the one at `root`: aligned, outside the pages that are still to be given out, and
-- each present entry of an upper level that is not a large page's leads to its own table.
pub record IsTree (y : Layout) (root : ℕ) (m : Machine) : Type 0 where
  pub root_level : y.level root ≡ 3
  pub root_prefix : y.prefix root ≡ 0
  pub aligned : (t : ℕ) → y.level t < 4 → t % 4096 ≡ 0
  pub apart : (t : ℕ) → y.level t < 4 → (t + 4096 ≤ m.next_page_addr) ⊎ (vmm_pages_end ≤ t)
  pub next_aligned : m.next_page_addr % 4096 ≡ 0
  pub child :
      (t i l : ℕ)
      → y.level t ≡ suc l
      → l < 3
      → i < 512
      → on (get_entry m t i) ≡ true
      → stops (suc l) (get_entry m t i) ≡ false
      → (y.level (target (get_entry m t i)) ≡ l)
        × (y.prefix (target (get_entry m t i)) ≡ y.prefix t * 512 + i)

pub slot_lt : (l virt : ℕ) → slot l virt < 512
unfolding slot
slot_lt l virt = omega arith

-- The entries that lead to the table of a level for an address.
unfoldable pub path : ℕ → ℕ → ℕ
path zero virt = (slot 3 virt * 512 + slot 2 virt) * 512 + slot 1 virt
path (suc zero) virt = slot 3 virt * 512 + slot 2 virt
path (suc (suc zero)) virt = slot 3 virt
path (suc (suc (suc l))) virt = 0

pub path_step : (l virt : ℕ) → l < 3 → path l virt ≡ path (suc l) virt * 512 + slot (suc l) virt
unfolding path
path_step zero virt h = refl
path_step (suc zero) virt h = refl
path_step (suc (suc zero)) virt h = omega arith
path_step (suc (suc (suc l))) virt h = absurd (omega arith)

-- Two machines that agree on the entries of the tables, but for the one at `(t, i)`.
abbrev pub Agrees : Layout → ℕ → ℕ → Machine → Machine → Type 0
Agrees y t i m m' =
    (u j : ℕ) → y.level u < 4 → j < 512 → (u ≢ t) ⊎ (j ≢ i) → get_entry m' u j ≡ get_entry m u j

-- An address whose walk does not meet the entry that changed, or is not changed by it, is translated
-- as before.
module _ (y : Layout) (root : ℕ) (m m' : Machine) (tree : IsTree y root m) (t i virt : ℕ)
    (agrees : Agrees y t i m m') where
  abbrev Kept : Type 0
  Kept =
      y.prefix t ≡ path (y.level t) virt
      → slot (y.level t) virt ≡ i
      → lookup (y.level t) m' t virt ≡ lookup (y.level t) m t virt

  private_entry :
      (l u : ℕ)
      → y.level u ≡ l
      → l < 4
      → (u ≢ t) ⊎ (slot l virt ≢ i)
      → get_entry m' u (slot l virt) ≡ get_entry m u (slot l virt)
  private_entry l u e h ne = agrees u (slot l virt) (omega (arith, e)) (slot_lt l virt) ne

  abbrev Same : ℕ → Type 0
  Same k =
      (n : ℕ) → y.level n ≡ k → y.prefix n ≡ path k virt → lookup k m' n virt ≡ lookup k m n virt

  Same-step :
      (l u : ℕ)
      → l < 4
      → y.level u ≡ l
      → ((k : ℕ) → l ≡ suc k → Same k)
      → y.prefix u ≡ path l virt
      → get_entry m' u (slot l virt) ≡ get_entry m u (slot l virt)
      → lookup l m' u virt ≡ lookup l m u virt
  unfolding lookup
  Same-step zero u h e next p same = rw same refl
  Same-step (suc l) u h e next p same =
      let entry : ℕ = get_entry m u (slot (suc l) virt) in
      rw same (elim (Bool-cases (on entry)) [
        | inl a ↦ elim (Bool-cases (stops (suc l) entry)) [
          | inl b ↦ rw (a, b) refl
          | inr b ↦
              let (c, d) =
                tree.child u (slot (suc l) virt) l e (omega arith) (slot_lt (suc l) virt) a b in
              rw (a, b)
                (next l refl (target entry) c (
                  d
                  ∙ (ap (λ (z : ℕ). z * 512 + slot (suc l) virt) p
                      ∙ sym (path_step l virt (omega arith)))))
        ]
        | inr a ↦ rw a refl
      ])

  -- The table is the changed one, at its entry, or the entry is as before.
  meets : (l u : ℕ) → ((u ≡ t) × (slot l virt ≡ i)) ⊎ ((u ≢ t) ⊎ (slot l virt ≢ i))
  meets l u = elim (Bool-cases (u == t)) [
    | inl a ↦ elim (Bool-cases (slot l virt == i)) [
      | inl b ↦ inl ((==_iff _ _).0 a, (==_iff _ _).0 b)
      | inr b ↦ inr (inr λ e. ground arith)
    ]
    | inr a ↦ inr (inl λ e. ground arith)
  ]

  lookup_met :
      (l u : ℕ)
      → Kept
      → y.level u ≡ l
      → y.prefix u ≡ path l virt
      → (u ≡ t) × (slot l virt ≡ i)
      → lookup l m' u virt ≡ lookup l m u virt
  lookup_met l u kept e p (same, at) =
      let lt : y.level t ≡ l = ap y.level (sym same) ∙ e in
      let pt : y.prefix t ≡ path l virt = ap y.prefix (sym same) ∙ p in
      rw same (rw (sym lt) (kept (rw lt pt) (rw lt at)))

  carried : (k l : ℕ) → k ≡ l → Same l → Same k
  carried k l e = subst Same (sym e)

  pub lookup-Agrees :
      (l u : ℕ)
      → l < 4
      → Kept
      → y.level u ≡ l
      → y.prefix u ≡ path l virt
      → lookup l m' u virt ≡ lookup l m u virt
  lookup-Agrees zero u h kept e p = elim (meets 0 u) [
    | inl met ↦ lookup_met 0 u kept e p met
    | inr ne ↦ Same-step 0 u h e (λ k eq. absurd (omega (arith, eq))) p (private_entry 0 u e h ne)
  ]
  lookup-Agrees (suc l) u h kept e p = elim (meets (suc l) u) [
    | inl met ↦ lookup_met (suc l) u kept e p met
    | inr ne ↦
        Same-step (suc l) u h e
          (λ k eq. carried k l (omega (arith, eq)) (λ n. lookup-Agrees l n (omega arith) kept)) p
          (private_entry (suc l) u e h ne)
  ]
