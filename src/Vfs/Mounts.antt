-- ===== src/Vfs/Mounts.antt =====
-- src/fs/vfs.rs: which mount point serves a path.
use delta_os.Base.{
  ℕ, ◌≤◌, ◌<◌, ◌≡◌, ◌≢◌, refl, sym, ap, ap₂, subst, ◌∙◌, ◌⊎◌, inl, inr, true, false, ◌&&◌, [], ◌∷◌,
  ◌++◌, none, some, ltb, length, drop, All, ==_iff, Bool-cases, Option-cases, arith,
}
use delta_os.Base.Map.{Map, get, same_refl}
use delta_os.Kernel.Result.{ok, err, file_system_not_found}
use delta_os.Vfs.{MountPoint, Vfs, best_mount, resolve_mount_point}
use delta_os.Vfs.Path.{Text, text_key, root_path, is_empty, starts_with}

starts_with-drop : (s t : Text) → starts_with s t ≡ true → t ++ drop (length t) s ≡ s
unfolding starts_with
starts_with-drop s [] e = refl
starts_with-drop [] (d ∷ t) e = absurd (grind (arith, e))
starts_with-drop (c ∷ s) (d ∷ t) e =
    ap₂ ◌∷◌ (sym ((==_iff c d).0 (ground (arith, e)))) (starts_with-drop s t (ground (arith, e)))

empty_length : (s : Text) → (is_empty s ≡ true) → length s ≡ 0
empty_length [] e = refl
empty_length (c ∷ s) e = absurd (grind (arith, e))

full_length : (s : Text) → is_empty s ≡ false → 0 < length s
full_length [] e = absurd (grind (arith, e))
full_length (c ∷ s) e = omega arith

full_ne : (s : Text) → is_empty s ≡ false → s ≢ []
full_ne s e q = let f : is_empty s ≡ true = rw q refl in grind (arith, e, f)

best_mount_end :
    (F : Type 0) (path : Text) (best : Text × ℕ) → best_mount {F = F} path [] best ≡ best
unfolding best_mount
best_mount_end F path best = refl

module _ {F : Type 0} where
  pub HasKey : Map Text (MountPoint F) → Text → Type 0
  HasKey m k = (p : MountPoint F) × (get m k ≡ some p)

  -- No key that the path starts with is longer than `n`.
  pub NoneLonger : Text → ℕ → Map Text (MountPoint F) → Type 0
  NoneLonger path n m =
      All (λ (e : Text × MountPoint F). starts_with path e.0 ≡ true → length e.0 ≤ n) m

  HasKey-tail :
      (e : Text × MountPoint F) (m : Map Text (MountPoint F)) (k : Text)
      → HasKey m k
      → HasKey (e ∷ m) k
  unfolding HasKey get
  HasKey-tail (j, w) m k (p, h) = elim (Bool-cases (text_key.same j k)) [
    | inl s ↦ (w, rw s refl)
    | inr s ↦ (p, rw s h)
  ]

  HasKey-head : (k : Text) (w : MountPoint F) (m : Map Text (MountPoint F)) → HasKey ((k, w) ∷ m) k
  unfolding HasKey get
  HasKey-head k w m = (w, rw (same_refl k) refl)

  -- What the loop makes of a candidate that the path starts with.
  Found : Text → Map Text (MountPoint F) → Text × ℕ → Text × ℕ → Type 0
  Found path m best r =
      (r.1 ≡ length r.0)
      × (starts_with path r.0 ≡ true)
      × (best.1 ≤ r.1)
      × ((r.0 ≡ best.0) ⊎ HasKey m r.0)
      × NoneLonger path r.1 m

  best_mount_taken :
      (path k : Text) (w : MountPoint F) (m : Map Text (MountPoint F)) (best : Text × ℕ)
      → (starts_with path k && ltb best.1 (length k)) ≡ true
      → best_mount path ((k, w) ∷ m) best ≡ best_mount path m (k, length k)
  unfolding best_mount
  best_mount_taken path k w m best t = rw t refl

  best_mount_kept :
      (path k : Text) (w : MountPoint F) (m : Map Text (MountPoint F)) (best : Text × ℕ)
      → (starts_with path k && ltb best.1 (length k)) ≡ false
      → best_mount path ((k, w) ∷ m) best ≡ best_mount path m best
  unfolding best_mount
  best_mount_kept path k w m best t = rw t refl

  best_mount-Found :
      (path : Text) (m : Map Text (MountPoint F)) (best : Text × ℕ)
      → best.1 ≡ length best.0
      → starts_with path best.0 ≡ true
      → Found path m best (best_mount path m best)
  unfolding Found NoneLonger
  best_mount-Found path [] best e h =
      subst (Found path [] best) (sym (best_mount_end F path best))
        (e, h, omega arith, inl refl, tt)
  best_mount-Found path ((k, w) ∷ m) best e h =
      elim (Bool-cases (starts_with path k && ltb best.1 (length k))) [
        | inl t ↦
            let (a, b, c, d, f) = best_mount-Found path m (k, length k) refl (ground (arith, t)) in
            subst (Found path ((k, w) ∷ m) best) (sym (best_mount_taken path k w m best t))
              (a, b, taken_le t c, inr (taken_key d), ((λ _. c), f))
        | inr t ↦
            let (a, b, c, d, f) = best_mount-Found path m best e h in
            subst (Found path ((k, w) ∷ m) best) (sym (best_mount_kept path k w m best t))
              (a, b, c, kept_key d, ((λ s. kept_le t s c), f))
      ]
    where
      r : Text × ℕ
      r = best_mount path m (k, length k)

      r' : Text × ℕ
      r' = best_mount path m best

      taken_le :
          (starts_with path k && ltb best.1 (length k)) ≡ true → length k ≤ r.1 → best.1 ≤ r.1
      taken_le t c = ground (arith, t)

      taken_key : (r.0 ≡ k) ⊎ HasKey m r.0 → HasKey ((k, w) ∷ m) r.0
      taken_key (inl q) = subst (HasKey ((k, w) ∷ m)) (sym q) (HasKey-head k w m)
      taken_key (inr q) = HasKey-tail (k, w) m r.0 q

      kept_key : (r'.0 ≡ best.0) ⊎ HasKey m r'.0 → (r'.0 ≡ best.0) ⊎ HasKey ((k, w) ∷ m) r'.0
      kept_key (inl q) = inl q
      kept_key (inr q) = inr (HasKey-tail (k, w) m r'.0 q)

      kept_le :
          (starts_with path k && ltb best.1 (length k)) ≡ false
          → starts_with path k ≡ true
          → best.1 ≤ r'.1
          → length k ≤ r'.1
      kept_le t s c = ground (arith, t, s)

module _ {F I : Type 0} (v : Vfs F I) (path : Text) where
  abbrev r : Text × ℕ
  r = best_mount path v.mount_points ([], 0)

  resolve_prefix : is_empty r.0 ≡ false → resolve_mount_point v path ≡ ok (r.0, drop r.1 path)
  unfolding resolve_mount_point
  resolve_prefix e = rw e refl

  resolve_root :
      (p : MountPoint F)
      → is_empty r.0 ≡ true
      → get v.mount_points root_path ≡ some p
      → resolve_mount_point v path ≡ ok (root_path, path)
  unfolding resolve_mount_point
  resolve_root p e h = rw (e, h) refl

  resolve_none :
      is_empty r.0 ≡ true
      → get v.mount_points root_path ≡ none
      → resolve_mount_point v path ≡ err file_system_not_found
  unfolding resolve_mount_point
  resolve_none e h = rw (e, h) refl

  starts_with_empty : starts_with path [] ≡ true
  unfolding starts_with
  starts_with_empty = refl

  -- Where a path is resolved to, in one of three ways. The longest mount point that is a prefix of the
  -- path, where there is one that is not empty: it is mounted, and it and the rest make up the path.
  -- Or none is, and "/" is mounted: then it is "/", with the whole path. Or neither, and the result is
  -- FileSystemNotFound.
  pub resolve_mount_point_lem :
      ((mount relative : Text) × (resolve_mount_point v path ≡ ok (mount, relative))
        × (mount ++ relative ≡ path)
        × (0 < length mount)
        × HasKey v.mount_points mount
        × NoneLonger path (length mount) v.mount_points)
      ⊎ ((resolve_mount_point v path ≡ ok (root_path, path))
          × HasKey v.mount_points root_path
          × NoneLonger path 0 v.mount_points)
      ⊎ ((resolve_mount_point v path ≡ err file_system_not_found)
          × (get v.mount_points root_path ≡ none)
          × NoneLonger path 0 v.mount_points)
  unfolding Found HasKey
  resolve_mount_point_lem =
      let (a, b, c, d, f) = best_mount-Found path v.mount_points ([], 0) refl starts_with_empty in
      elim (Bool-cases (is_empty r.0)) [
        | inl e ↦
            let n : r.1 ≡ 0 = a ∙ empty_length r.0 e in
            let short = subst (λ (k : ℕ). NoneLonger path k v.mount_points) n f in
            elim (Option-cases (get v.mount_points root_path)) [
              | inl h ↦ inr (inr (resolve_none e h, h, short))
              | inr (p, h) ↦ inr (inl (resolve_root p e h, (p, h), short))
            ]
        | inr e ↦ inl (
          r.0,
          drop r.1 path,
          resolve_prefix e,
          ap (λ (n : ℕ). r.0 ++ drop n path) a ∙ starts_with-drop path r.0 b,
          full_length r.0 e,
          elim d [ inl q ↦ absurd (full_ne r.0 e q) | inr q ↦ q ],
          subst (λ (k : ℕ). NoneLonger path k v.mount_points) a f,
        )
      ]
