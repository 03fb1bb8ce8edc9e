-- ===== src/Vmm/Leaf.antt =====
-- src/memory/vmm.rs: a write of an entry of the lowest level changes the translation of one page.
use delta_os.Base.{
  ℕ, zero, suc, ◌+◌, ◌*◌, ◌/◌, ◌%◌, ◌^◌, ◌<◌, ◌≡◌, ◌≢◌, refl, sym, ap, ◌∙◌, inl, inr, true, false,
  none, some, ◌==◌, ==_refl, ==_ne, Bool-cases, arith,
}
use delta_os.Vmm.{Machine, get_entry, set_entry, invlpg}
use delta_os.Vmm.Lookup.{slot, on, target, stops, lookup}
use delta_os.Vmm.Tree.{Layout, IsTree, path, slot_lt, Agrees, lookup-Agrees}
use delta_os.Vmm.Reached.{Reached, Reached-path, Reached-lookup, Reached-Agrees}

-- The page of an address, as far as the tables tell addresses apart.
abbrev pub page_of : ℕ → ℕ
page_of a = a / 4096 % 2 ^ 36

pub same_page : (a b : ℕ) → page_of a ≡ page_of b → (k : ℕ) → k < 4 → slot k a ≡ slot k b
unfolding slot
same_page a b e zero h = omega arith
same_page a b e (suc zero) h = omega arith
same_page a b e (suc (suc zero)) h = omega arith
same_page a b e (suc (suc (suc zero))) h = omega arith
same_page a b e (suc (suc (suc (suc k)))) h = absurd (omega arith)

same_path : (a b : ℕ) → path 0 a ≡ path 0 b → slot 0 a ≡ slot 0 b → page_of a ≡ page_of b
unfolding slot path
same_path a b p q = omega arith

unfoldable pub leaf : Machine → ℕ → ℕ → ℕ → ℕ → Machine
unfolding set_entry invlpg
leaf m pt virt i entry = invlpg (set_entry m pt i entry) virt

module _ (y : Layout) (root : ℕ) (m : Machine) (tree : IsTree y root m) (virt pt entry : ℕ)
    (reached : Reached m root virt 0 pt) where
  abbrev i : ℕ
  i = slot 0 virt

  abbrev m' : Machine
  m' = leaf m pt virt i entry

  place : (y.level pt ≡ 0) × (y.prefix pt ≡ path 0 virt)
  place = Reached-path y tree reached

  leaf-Agrees : Agrees y pt i m m'
  unfolding leaf get_entry set_entry invlpg
  leaf-Agrees u j h l ne =
      let a = tree.aligned u h in
      let b = tree.aligned pt (omega (arith, place.0)) in
      let d : (u + 8 * j == pt + 8 * i) ≡ false = ==_ne _ _ λ e. elim ne [
        | inl f ↦ f (omega (arith, a, b, e, slot_lt 0 virt))
        | inr f ↦ f (omega (arith, a, b, e, slot_lt 0 virt))
      ] in
      rw d refl

  pub leaf_entry : get_entry m' pt i ≡ entry
  unfolding leaf get_entry set_entry invlpg
  leaf_entry = rw (==_refl (pt + 8 * i)) refl

  next_kept : m'.next_page_addr ≡ m.next_page_addr
  unfolding leaf set_entry invlpg
  next_kept = refl

  upper_kept :
      (t j l : ℕ) → y.level t ≡ suc l → l < 3 → j < 512 → get_entry m' t j ≡ get_entry m t j
  upper_kept t j l e h g =
      leaf-Agrees t j (omega (arith, e)) g
        (inl λ q. absurd (omega (arith, e, place.0, ap y.level q)))

  pub leaf-IsTree : IsTree y root m'
  leaf-IsTree = record {
    root_level = tree.root_level;
    root_prefix = tree.root_prefix;
    aligned = tree.aligned;
    apart = λ t h. rw next_kept (tree.apart t h);
    next_aligned = rw next_kept tree.next_aligned;
    child = λ t j l e h g. let same = upper_kept t j l e h g in rw same (tree.child t j l e h g);
  }

  pub leaf-Reached : Reached m' root virt 0 pt
  leaf-Reached =
      Reached-Agrees y pt i tree leaf-Agrees (λ k e. absurd (omega (arith, e, place.0))) reached

  pub leaf_same :
      (a : ℕ)
      → page_of a ≡ page_of virt
      → on entry ≡ true
      → lookup 3 m' root a ≡ some (target entry + a % 4096)
  unfolding lookup
  leaf_same a e p =
      Reached-lookup a (same_page a virt e) leaf-Reached
      ∙ rw (same_page a virt e 0 (omega arith), leaf_entry, p) refl

  pub leaf_gone : (a : ℕ) → page_of a ≡ page_of virt → on entry ≡ false → lookup 3 m' root a ≡ none
  unfolding lookup
  leaf_gone a e p =
      Reached-lookup a (same_page a virt e) leaf-Reached
      ∙ rw (same_page a virt e 0 (omega arith), leaf_entry, p) refl

  pub leaf_other : (a : ℕ) → page_of a ≢ page_of virt → lookup 3 m' root a ≡ lookup 3 m root a
  unfolding path
  leaf_other a ne =
      lookup-Agrees y root m m' tree pt i a leaf-Agrees 3 root (omega arith)
        (λ p at. absurd (apart p at)) tree.root_level tree.root_prefix
    where
      apart : y.prefix pt ≡ path (y.level pt) a → slot (y.level pt) a ≢ i
      apart p at =
          let z = place.0 in
          ne (
            same_path a virt (sym (p ∙ ap (λ (l : ℕ). path l a) z) ∙ place.1)
              (sym (ap (λ (l : ℕ). slot l a) z) ∙ at))

lookup_found :
    (m : Machine) (l t b : ℕ)
    → on (get_entry m t (slot (suc l) b)) ≡ true
    → lookup (suc l) m t b ≡ none
    → (stops (suc l) (get_entry m t (slot (suc l) b)) ≡ false)
      × (lookup l m (target (get_entry m t (slot (suc l) b))) b ≡ none)
unfolding lookup
lookup_found m l t b p e = ground (arith, p, e)

-- A page is translated as a whole.
pub lookup-none :
    (m : Machine) (a b : ℕ)
    → page_of a ≡ page_of b
    → (l t : ℕ) → l < 4
    → lookup l m t b ≡ none
    → lookup l m t a ≡ none
unfolding lookup
lookup-none m a b e zero t h none_b = rw (same_page a b e 0 h) (ground (arith, none_b))
lookup-none m a b e (suc l) t h none_b =
    let at = same_page a b e (suc l) h in
    let entry : ℕ = get_entry m t (slot (suc l) b) in
    rw at (elim (Bool-cases (on entry)) [
      | inl p ↦
          let (q, r) = lookup_found m l t b p none_b in
          rw (p, q) (lookup-none m a b e l (target entry) (omega arith) r)
      | inr p ↦ rw p refl
    ])
