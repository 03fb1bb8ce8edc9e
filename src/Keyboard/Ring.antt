-- ===== src/Keyboard/Ring.antt =====
-- src/interrupts.rs: the ring buffer is a queue of at most 255 characters.
use delta_os.Base.{
  ℕ, zero, suc, ◌+◌, ◌-◌, ◌%◌, ◌<◌, ◌≡◌, refl, ap, ◌∙◌, ◌⊎◌, inl, inr, true, false, List, [], ◌∷◌,
  ◌++◌, arith, if◌then◌else◌, ltb, ◌==◌, Bool-cases, length, get_or, set, length-set,
  get_or-set_self, get_or-set_ne,
}
use delta_os.Keyboard.{Keyboard, keyboard_has_data, keyboard_read_char, enqueue}

-- Both indices lie in the buffer.
pub record IsRing (k : Keyboard) : Type 0 where
  pub size : length k.buffer ≡ 256
  pub head_in : k.head < 256
  pub tail_in : k.tail < 256

-- `n` entries of the ring from an index on.
unfoldable pub span : List ℕ → ℕ → ℕ → List ℕ
span buf i zero = []
span buf i (suc n) = get_or buf i 0 ∷ span buf ((i + 1) % 256) n

abbrev pub count : Keyboard → ℕ
count k = (k.head + 256 - k.tail) % 256

-- The characters that wait, oldest first.
abbrev pub waiting : Keyboard → List ℕ
waiting k = span k.buffer k.tail (count k)

pub length-span : (buf : List ℕ) (i n : ℕ) → length (span buf i n) ≡ n
unfolding span
length-span buf i zero = refl
length-span buf i (suc n) = ap suc (length-span buf ((i + 1) % 256) n)

-- A write behind a span that does not fill the ring extends it.
span-set :
    (buf : List ℕ) (i n j v : ℕ)
    → length buf ≡ 256
    → i < 256
    → n < 256
    → (i + n) % 256 ≡ j
    → span (set buf j v) i (suc n) ≡ span buf i n ++ v ∷ []
unfolding span
span-set buf i zero j v len h l e =
    let here : j ≡ i = omega arith in
    rw here (ap (λ (x : ℕ). x ∷ []) (get_or-set_self buf i v 0 (omega (arith, len))))
span-set buf i (suc n) j v len h l e =
    let rest = span-set buf ((i + 1) % 256) n j v len (omega arith) (omega arith) (omega arith) in
    rw (get_or-set_ne buf j i v 0 (λ q. absurd (omega arith))) (ap (◌∷◌ (get_or buf i 0)) rest)

-- A character joins the waiting ones as the last, if fewer than 255 wait.
pub enqueue_lem :
    (k : Keyboard) (ch : ℕ)
    → IsRing k
    → (waiting (enqueue k ch) ≡ (if ltb (count k) 255 then waiting k ++ ch ∷ [] else waiting k))
      × IsRing (enqueue k ch)
      × ((enqueue k ch).shift_pressed ≡ k.shift_pressed)
      × ((enqueue k ch).caps_lock ≡ k.caps_lock)
unfolding enqueue
enqueue_lem k ch v = elim (Bool-cases ((k.head + 1) % 256 == k.tail)) [
  | inl full ↦
      let f : ltb (count k) 255 ≡ false = ground (arith, v.head_in, v.tail_in) in
      rw full (rw f refl, v, refl, refl)
  | inr room ↦
      let f : ltb (count k) 255 ≡ true = ground (arith, v.head_in, v.tail_in) in
      let n : ((k.head + 1) % 256 + 256 - k.tail) % 256 ≡ suc (count k) =
        ground (arith, v.head_in, v.tail_in) in
      rw room (
        rw (f, n)
            (span-set k.buffer k.tail (count k) k.head ch v.size v.tail_in (omega arith)
              (omega (arith, v.head_in, v.tail_in))),
        record {
          size = length-set k.buffer k.head ch ∙ v.size;
          head_in = omega arith;
          tail_in = v.tail_in;
        },
        refl,
        refl,
      )
]

-- On a ring with its indices in the buffer, `keyboard_read_char` returns 0 and changes nothing if no
-- character waits, and otherwise returns the oldest and leaves the others; `keyboard_has_data` tells
-- the two cases apart.
pub keyboard_read_char_lem :
    (k : Keyboard)
    → IsRing k
    → let (ch, k') = keyboard_read_char k in
      IsRing k'
      × (((waiting k ≡ []) × (keyboard_has_data k ≡ false) × (ch ≡ 0) × (k' ≡ k))
          ⊎ ((waiting k ≡ ch ∷ waiting k') × (keyboard_has_data k ≡ true)))
unfolding keyboard_read_char keyboard_has_data span
keyboard_read_char_lem k v = elim (Bool-cases (k.head == k.tail)) [
  | inl e ↦
      let n : count k ≡ 0 = ground (arith, v.head_in) in rw e (v, inl (rw n refl, refl, refl, refl))
  | inr e ↦
      let n : count k ≡ suc ((k.head + 256 - (k.tail + 1) % 256) % 256) =
        ground (arith, v.head_in, v.tail_in) in
      rw e (
        record { size = v.size; head_in = v.head_in; tail_in = omega arith },
        inr (rw n refl, refl),
      )
]
