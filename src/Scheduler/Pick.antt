-- ===== src/Scheduler/Pick.antt =====
-- src/sched/scheduler.rs: which task `pick_next_task` takes from the queue.
use delta_os.Base.{
  ℕ, suc, ◌+◌, ◌≤◌, ◌<◌, ◌≡◌, refl, ap, ◌∙◌, ◌⊎◌, inl, inr, true, ◌&&◌, Option, none, some, List,
  [], ◌∷◌, ◌++◌, arith, ltb, Bool-cases, length, All, get_or, remove_at, get_or-append,
  remove_at-append,
}
use delta_os.Task.{Task, is_ready, rank}
use delta_os.Scheduler.State.{Ref}
use delta_os.Scheduler.Run.{best_index, pick_next_task}

module _ (tasks : Ref → Task) where
  abbrev pub Ready : Ref → Type 0
  Ready r = is_ready (tasks r).state ≡ true

  -- Of rank at most `b`, or below it, if ready.
  abbrev pub AtMost : ℕ → Ref → Type 0
  AtMost b r = Ready r → rank (tasks r).priority ≤ b

  abbrev pub Below : ℕ → Ref → Type 0
  Below b r = Ready r → rank (tasks r).priority < b

  -- A ready reference and its place in the queue: before it ready tasks have a lower priority,
  -- behind it none has a higher.
  pub record Chosen (q : List Ref) (r : Ref) (before after : List Ref) : Type 0 where
    pub place : q ≡ before ++ r ∷ after
    pub is_ready : Ready r
    pub first : All (Below (rank (tasks r).priority)) before
    pub highest : All (AtMost (rank (tasks r).priority)) after

  -- What the loop finds from `idx` on, above the rank `best`.
  abbrev Found : List Ref → ℕ → ℕ → ℕ → Type 0
  Found rs idx best i =
      (r : Ref) × (before : List Ref) × (after : List Ref) × Chosen rs r before after
      × (i ≡ idx + length before)
      × (best < rank (tasks r).priority)

  AtMost-weaken : (a b : ℕ) (rs : List Ref) → a ≤ b → All (AtMost a) rs → All (AtMost b) rs
  AtMost-weaken a b [] h m = tt
  AtMost-weaken a b (r ∷ rs) h m = (λ e. omega (arith, m.0 e), AtMost-weaken a b rs h m.1)

  skip :
      (r : Ref) (rs : List Ref) (idx best best' i : ℕ)
      → best ≤ best'
      → AtMost best' r
      → Found rs (suc idx) best' i
      → Found (r ∷ rs) idx best i
  skip r rs idx best best' i h m (x, before, after, c, e, l) = (
    x,
    r ∷ before,
    after,
    record {
      place = ap (◌∷◌ r) c.place;
      is_ready = c.is_ready;
      first = (λ k. omega (arith, m k), c.first);
      highest = c.highest;
    },
    omega arith,
    omega arith,
  )

  best_index-Found :
      (rs : List Ref) (idx bi best : ℕ)
      → let i = best_index tasks rs idx bi best in
        ((i ≡ bi) × All (AtMost best) rs) ⊎ Found rs idx best i
  unfolding best_index
  best_index-Found [] idx bi best = inl (refl, tt)
  best_index-Found (r ∷ rs) idx bi best =
      elim (Bool-cases (is_ready (tasks r).state && ltb best (rank (tasks r).priority))) [
        | inl yes' ↦ rw yes' (elim (best_index-Found rs (suc idx) idx (rank (tasks r).priority)) [
          | inl (e, m) ↦ inr (
            r,
            [],
            rs,
            record { place = refl; is_ready = ground arith; first = tt; highest = m },
            omega arith,
            ground arith,
          )
          | inr f ↦
              inr
                (skip r rs idx best (rank (tasks r).priority) _ (ground arith) (λ k. omega arith) f)
        ])
        | inr no' ↦ rw no' (elim (best_index-Found rs (suc idx) bi best) [
          | inl (e, m) ↦ inl (e, (λ k. ground arith, m))
          | inr f ↦ inr (skip r rs idx best best _ (omega arith) (λ k. ground arith) f)
        ])
      ]

  -- What `pick_next_task` promises: it takes a chosen reference out of the queue; or the queue is
  -- empty, or its head is not ready and no ready task in it is above the lowest priority.
  abbrev pub Picks : List Ref → Option (Ref × List Ref) → Type 0
  Picks q p =
      ((r : Ref) × (before : List Ref) × (after : List Ref) × Chosen q r before after
        × (p ≡ some (r, before ++ after)))
      ⊎ ((p ≡ none)
          × ((q ≡ [])
              ⊎ ((r : Ref) × (rs : List Ref) × (q ≡ r ∷ rs) × (¬ Ready r) × All (AtMost 0) q)))

  pick-at :
      (q : List Ref) (r : Ref) (before after : List Ref) (d : Ref) (i : ℕ)
      → Chosen q r before after
      → i ≡ length before
      → (get_or q i d ≡ r) × (remove_at i q ≡ before ++ after)
  pick-at q r before after d i c e =
      rw (e, c.place) (get_or-append before r after d, remove_at-append before r after)

  -- `pick_next_task` takes the first of the ready tasks of the highest priority, and leaves the
  -- other entries in their order. It takes none exactly from an empty queue, and from a queue
  -- whose head is not ready and whose ready tasks all have the lowest priority.
  pub pick_next_task-Picks : (q : List Ref) → Picks q (pick_next_task tasks q)
  unfolding pick_next_task
  pick_next_task-Picks [] = inr (refl, inl refl)
  pick_next_task-Picks (r ∷ rs) = elim (best_index-Found (r ∷ rs) 0 0 0) [
    | inl (e, m) ↦ elim (Bool-cases (is_ready (tasks r).state)) [
      | inl h ↦ inl (
        r,
        [],
        rs,
        record {
          place = refl;
          is_ready = h;
          first = tt;
          highest = AtMost-weaken 0 _ rs (omega arith) m.1;
        },
        rw (e, h),
      )
      | inr h ↦ inr (rw (e, h), inr (r, rs, refl, λ k. cc, m))
    ]
    | inr (x, before, after, c, e, l) ↦
        let (g, t) = pick-at (r ∷ rs) x before after r _ c (e ∙ omega arith) in
        inl (x, before, after, c, rw (g, t, c.is_ready))
  ]
