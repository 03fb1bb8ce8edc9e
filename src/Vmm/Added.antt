-- ===== src/Vmm/Added.antt =====
-- src/memory/vmm.rs: a new table linked at an entry that is not present leaves a tree, in which the
-- new table has its place.
use Prim.Native.Nat.{bit_or}
use delta_os.Base.{
  ℕ, zero, suc, ◌+◌, ◌*◌, ◌/◌, ◌%◌, ◌^◌, ◌≤◌, ◌<◌, ◌≡◌, ◌≢◌, refl, sym, ap, subst, ◌∙◌, ◌⊎◌, inl,
  inr, true, false, ◌&&◌, none, if◌then◌else◌, ◌==◌, leb, ltb, ==_iff, ==_ne, ==_refl, Bool-cases,
  arith,
}
use delta_os.Base.Bits.{shl_one}
use delta_os.Vmm.{Machine, get_entry, set_entry, clear_page, table_entry, page_size, vmm_pages_end}
use delta_os.Vmm.Masks.{bit_or_div, bit_or_mod, bit_or_nothing}
use delta_os.Vmm.Lookup.{slot, on, huge, target, stops, lookup}
use delta_os.Vmm.Tree.{Layout, IsTree, path, slot_lt, Agrees, lookup-Agrees}

table_entry_low : (n : ℕ) → n % 4096 ≡ 0 → table_entry n % 4096 ≡ 3
unfolding table_entry shl_one
table_entry_low n h =
    bit_or_mod 12 (bit_or n 1) 2
    ∙ ap (λ (z : ℕ). bit_or z 2) (bit_or_mod 12 n 1 ∙ ap (λ (z : ℕ). bit_or z 1) h)

table_entry_high : (n : ℕ) → table_entry n / 4096 ≡ n / 4096
unfolding table_entry shl_one
table_entry_high n =
    bit_or_div 12 (bit_or n 1) 2
    ∙ (bit_or_nothing _ ∙ (bit_or_div 12 n 1 ∙ bit_or_nothing (n / 4096)))

pub table_entry_lem :
    (n : ℕ)
    → n % 4096 ≡ 0
    → n < 2 ^ 52
    → (on (table_entry n) ≡ true) × (huge (table_entry n) ≡ false) × (target (table_entry n) ≡ n)
unfolding on huge target
table_entry_lem n h k =
    let low = table_entry_low n h in
    let high = table_entry_high n in (ground (arith, low), ground (arith, low), omega (arith, high))

-- The machine after `alloc_page_table` and `set_entry`.
unfoldable pub added : Machine → ℕ → ℕ → Machine
unfolding clear_page set_entry
added m t i =
    let n : ℕ = m.next_page_addr in
    set_entry (clear_page (record m { next_page_addr = n + page_size }) n) t i (table_entry n)

abbrev pub place : Layout → ℕ → ℕ → ℕ → Layout
place y n k p = record {
  level = λ (u : ℕ). if u == n then k else y.level u;
  prefix = λ (u : ℕ). if u == n then p else y.prefix u;
}

module _ (y : Layout) (root : ℕ) (m : Machine) (tree : IsTree y root m) (t i k : ℕ)
    (level_t : y.level t ≡ suc k) (k_lt : k < 3) (i_lt : i < 512)
    (room : m.next_page_addr + 4096 ≤ vmm_pages_end) where
  abbrev n : ℕ
  n = m.next_page_addr

  abbrev y' : Layout
  y' = place y n k (y.prefix t * 512 + i)

  -- The new page is no table yet.
  unplaced : (u : ℕ) → y.level u < 4 → u ≢ n
  unplaced u h e = elim (tree.apart u h) [ inl a ↦ omega (arith, e) | inr a ↦ omega (arith, e) ]

  read_clear :
      (u j : ℕ)
      → y.level u < 4
      → j < 512
      → (leb n (u + 8 * j) && ltb (u + 8 * j) (n + 4096)) ≡ false
  read_clear u j h l = elim (tree.apart u h) [
    | inl a ↦ ground (arith, tree.aligned u h, tree.next_aligned)
    | inr a ↦ ground arith
  ]

  pub added-Agrees : Agrees y t i m (added m t i)
  unfolding added get_entry set_entry clear_page
  added-Agrees u j h l ne =
      let c = read_clear u j h l in
      let d : (u + 8 * j == t + 8 * i) ≡ false = ==_ne _ _ λ e. elim ne [
        | inl f ↦ f (omega (arith, tree.aligned u h, tree.aligned t (omega (arith, level_t)), e))
        | inr f ↦ f (omega (arith, tree.aligned u h, tree.aligned t (omega (arith, level_t)), e))
      ] in
      rw (d, c) refl

  pub added_entry : get_entry (added m t i) t i ≡ table_entry n
  unfolding added get_entry set_entry clear_page
  added_entry = rw (==_refl (t + 8 * i)) refl

  pub added_empty : (j : ℕ) → j < 512 → get_entry (added m t i) n j ≡ 0
  unfolding added get_entry set_entry clear_page
  added_empty j l =
      let a : y.level t < 4 = omega (arith, level_t) in
      let d : (n + 8 * j == t + 8 * i) ≡ false =
        ==_ne _ _ λ e. unplaced t a (omega (arith, tree.aligned t a, tree.next_aligned, e)) in
      let c : (leb n (n + 8 * j) && ltb (n + 8 * j) (n + 4096)) ≡ true = ground arith in
      rw (d, c) refl

  empty_off : (j : ℕ) → j < 512 → on (get_entry (added m t i) n j) ≡ false
  unfolding on
  empty_off j l = rw (added_empty j l) refl

  pub lookup_empty : (l virt : ℕ) → lookup l (added m t i) n virt ≡ none
  unfolding lookup
  lookup_empty zero virt = rw (empty_off (slot 0 virt) (slot_lt 0 virt)) refl
  lookup_empty (suc l) virt = rw (empty_off (slot (suc l) virt) (slot_lt (suc l) virt)) refl

  pub linked :
      (on (table_entry n) ≡ true) × (huge (table_entry n) ≡ false) × (target (table_entry n) ≡ n)
  linked = table_entry_lem n tree.next_aligned (omega arith)

  pub linked_stops : (l : ℕ) → stops l (table_entry n) ≡ false
  linked_stops l = rw (linked.1) (ground arith)

  -- Through the new entry nothing is translated, as before.
  added_hit :
      (virt : ℕ)
      → on (get_entry m t i) ≡ false
      → slot (suc k) virt ≡ i
      → lookup (suc k) (added m t i) t virt ≡ lookup (suc k) m t virt
  unfolding lookup
  added_hit virt off at =
      rw (at, added_entry, linked.0, linked_stops (suc k), linked.2, off) (lookup_empty k virt)

  pub lookup-added :
      (virt : ℕ)
      → on (get_entry m t i) ≡ false
      → lookup 3 (added m t i) root virt ≡ lookup 3 m root virt
  unfolding path
  lookup-added virt off =
      lookup-Agrees y root m (added m t i) tree t i virt added-Agrees 3 root (omega arith)
        (λ p at.
          let at' : slot (suc k) virt ≡ i = ap (λ (z : ℕ). slot z virt) (sym level_t) ∙ at in
          subst (λ (z : ℕ). lookup z (added m t i) t virt ≡ lookup z m t virt) (sym level_t)
            (added_hit virt off at'))
        tree.root_level tree.root_prefix

  placed_new : (y'.level n ≡ k) × (y'.prefix n ≡ y.prefix t * 512 + i)
  placed_new = rw (==_refl n) (refl, refl)

  placed_old : (u : ℕ) → u ≢ n → (y'.level u ≡ y.level u) × (y'.prefix u ≡ y.prefix u)
  placed_old u ne = rw (==_ne u n ne) (refl, refl)

  child_old :
      (u j l : ℕ)
      → y.level u ≡ suc l
      → l < 3
      → j < 512
      → on (get_entry m u j) ≡ true
      → stops (suc l) (get_entry m u j) ≡ false
      → (y'.level (target (get_entry m u j)) ≡ l)
        × (y'.prefix (target (get_entry m u j)) ≡ y.prefix u * 512 + j)
  child_old u j l e h g a b =
      let (c, d) = tree.child u j l e h g a b in
      let (c', d') = placed_old (target (get_entry m u j)) (unplaced _ (omega (arith, c))) in
      (c' ∙ c, d' ∙ d)

  child_linked :
      (l : ℕ)
      → l ≡ k
      → (y'.level (target (get_entry (added m t i) t i)) ≡ l)
        × (y'.prefix (target (get_entry (added m t i) t i)) ≡ y.prefix t * 512 + i)
  child_linked l e =
      let p : target (get_entry (added m t i) t i) ≡ n = ap target added_entry ∙ linked.2 in
      (ap y'.level p ∙ (placed_new.0 ∙ sym e), ap y'.prefix p ∙ placed_new.1)

  -- What an entry of the new tree leads to, at a table of the old one.
  child_placed :
      (u j l : ℕ)
      → y.level u ≡ suc l
      → l < 3
      → j < 512
      → on (get_entry (added m t i) u j) ≡ true
      → stops (suc l) (get_entry (added m t i) u j) ≡ false
      → (y'.level (target (get_entry (added m t i) u j)) ≡ l)
        × (y'.prefix (target (get_entry (added m t i) u j)) ≡ y.prefix u * 512 + j)
  child_placed u j l e h g a b = elim (Bool-cases ((u == t) && (j == i))) [
    | inl met ↦
        let p : u ≡ t = ground arith in
        let q : j ≡ i = ground arith in
        let f : l ≡ k = omega (arith, level_t, sym e ∙ ap y.level p) in rw (p, q) (child_linked l f)
    | inr ne ↦
        let apart : (u ≢ t) ⊎ (j ≢ i) = ground arith in
        let same = added-Agrees u j (omega (arith, e)) g apart in
        rw same (child_old u j l e h g (rw (sym same) a) (rw (sym same) b))
  ]

  child_new :
      (u j l : ℕ)
      → y'.level u ≡ suc l
      → l < 3
      → j < 512
      → on (get_entry (added m t i) u j) ≡ true
      → stops (suc l) (get_entry (added m t i) u j) ≡ false
      → (y'.level (target (get_entry (added m t i) u j)) ≡ l)
        × (y'.prefix (target (get_entry (added m t i) u j)) ≡ y'.prefix u * 512 + j)
  child_new u j l e h g a b = elim (Bool-cases (u == n)) [
    | inl p ↦
        let c : on (get_entry (added m t i) u j) ≡ false = rw ((==_iff u n).0 p) (empty_off j g) in
        absurd (grind (arith, a, c))
    | inr p ↦
        let (c, d) = placed_old u (λ q. ground arith) in
        rw d (child_placed u j l (sym c ∙ e) h g a b)
  ]

  was_table : (u : ℕ) → y'.level u < 4 → (u ≡ n) ⊎ (y.level u < 4)
  was_table u h = ground arith

  next_added : (added m t i).next_page_addr ≡ n + 4096
  unfolding added clear_page set_entry
  next_added = refl

  pub added-IsTree : IsTree y' root (added m t i)
  added-IsTree =
      let r = placed_old root (unplaced root (omega (arith, tree.root_level))) in
      record {
        root_level = r.0 ∙ tree.root_level;
        root_prefix = r.1 ∙ tree.root_prefix;
        aligned = λ u h. elim (was_table u h) [
          | inl e ↦ omega (arith, e, tree.next_aligned)
          | inr g ↦ tree.aligned u g
        ];
        apart = λ u h. elim (was_table u h) [
          | inl e ↦ inl (omega (arith, next_added, e))
          | inr g ↦ elim (tree.apart u g) [
            | inl e ↦ inl (omega (arith, next_added, e))
            | inr e ↦ inr e
          ]
        ];
        next_aligned = omega (arith, next_added, tree.next_aligned);
        child = child_new;
      }
