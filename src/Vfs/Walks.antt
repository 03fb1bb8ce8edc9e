-- ===== src/Vfs/Walks.antt =====
-- src/fs/vfs.rs: the walk along a path, part by part.
use delta_os.Base.{
  ℕ, ◌≡◌, refl, sym, ap, ◌∙◌, inl, inr, Bool, true, ◌||◌, List, [], ◌∷◌, ◌++◌, retain, ◌==◌,
  Bool-cases, arith,
}
use delta_os.Kernel.Result.{KernelResult, ok, err, ◌>>=◌}
use delta_os.Vfs.Types.{InodeOps}
use delta_os.Vfs.{components, walk, traverse_path}
use delta_os.Vfs.Path.{Text, slash, root_path, is_empty, text_eq, text_eq_iff, join_first, split}

retain-append :
    (p : Text → Bool) (xs ys : List Text) → retain p (xs ++ ys) ≡ retain p xs ++ retain p ys
retain-append p [] ys = refl
retain-append p (x ∷ xs) ys = ground (arith, retain-append p xs ys)

split_parts : (s : Text) → (part : Text) × (parts : List Text) × (split s ≡ part ∷ parts)
unfolding split join_first
split_parts [] = ([], [], refl)
split_parts (c ∷ s) =
    let (part, parts, e) = split_parts s in
    elim (Bool-cases (c == slash)) [
      | inl q ↦ ([], split s, rw q refl)
      | inr q ↦ (c ∷ part, parts, rw (q, e) refl)
    ]

join_first-append :
    (c : ℕ) (s : Text) (ys : List Text)
    → join_first c (split s ++ ys) ≡ join_first c (split s) ++ ys
unfolding join_first
join_first-append c s ys = let (part, parts, e) = split_parts s in rw e refl

-- A slash ends a part.
split-append : (s t : Text) → split (s ++ slash ∷ t) ≡ split s ++ split t
unfolding split
split-append [] t = refl
split-append (c ∷ s) t =
    let rest = split-append s t in
    elim (Bool-cases (c == slash)) [
      | inl q ↦ rw (q, rest) refl
      | inr q ↦ rw (q, rest) (join_first-append c s (split t))
    ]

components-append : (s t : Text) → components (s ++ slash ∷ t) ≡ components s ++ components t
unfolding components
components-append s t = rw (split-append s t) (retain-append _ (split s) (split t))

module _ {I : Type 0} (inodes : InodeOps I) where
  walk-append :
      (root : I) (xs ys : List Text)
      → walk inodes root (xs ++ ys) ≡ (walk inodes root xs >>= λ next. walk inodes next ys)
  unfolding walk
  walk-append root [] ys = refl
  walk-append root (x ∷ xs) ys = after (inodes.lookup root x) (λ next. walk-append next xs ys)
    where
      after :
          (r : KernelResult I)
          → ((next : I)
              → walk inodes next (xs ++ ys) ≡ (walk inodes next xs >>= λ n. walk inodes n ys))
          → (r >>= λ next. walk inodes next (xs ++ ys))
            ≡ ((r >>= λ next. walk inodes next xs) >>= λ next. walk inodes next ys)
      after (ok next) h = h next
      after (err e) h = refl

  bind_ext :
      {f g : I → KernelResult I} (r : KernelResult I)
      → ((i : I) → f i ≡ g i)
      → (r >>= f) ≡ (r >>= g)
  bind_ext (ok i) h = h i
  bind_ext (err e) h = refl

  early_components :
      (path : Text) → (is_empty path || text_eq path root_path) ≡ true → components path ≡ []
  unfolding components split join_first
  early_components [] e = refl
  early_components (c ∷ s) e = ap components ((text_eq_iff (c ∷ s) root_path).0 e)

  -- The two paths that the code returns early on have no parts.
  traverse_path-walk :
      (root : I) (path : Text) → traverse_path inodes root path ≡ walk inodes root (components path)
  unfolding traverse_path walk
  traverse_path-walk root path = elim (Bool-cases (is_empty path || text_eq path root_path)) [
    | inl e ↦ rw (e, early_components path e) refl
    | inr e ↦ rw e refl
  ]

  -- For every file system and inode: to walk a path made of two, with a slash between them, is to walk
  -- the first and then, from the inode that it leads to, the second; an error of the first is the
  -- result. Empty parts make no difference, and a slash at either end is one.
  pub traverse_path-append :
      (root : I) (s t : Text)
      → traverse_path inodes root (s ++ slash ∷ t)
        ≡ (traverse_path inodes root s >>= λ next. traverse_path inodes next t)
  traverse_path-append root s t =
      traverse_path-walk root (s ++ slash ∷ t)
      ∙ (ap (walk inodes root) (components-append s t)
          ∙ (walk-append root (components s) (components t)
              ∙ rw (traverse_path-walk root s) (
                  bind_ext (walk inodes root (components s))
                    (λ next. sym (traverse_path-walk next t)))))
