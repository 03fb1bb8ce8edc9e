-- ===== src/Keyboard/Scancode.antt =====
-- src/interrupts.rs: what a scancode does to shift and to the waiting characters.
use Prim.Native.Nat.{bit_and}
use delta_os.Base.{
  ℕ, ◌+◌, ◌*◌, ◌/◌, ◌%◌, min, ◌<◌, ◌≡◌, refl, sym, Bool, true, false, not, ◌||◌, List, [], ◌∷◌,
  ◌++◌, arith, if◌then◌else◌, ltb, leb, lt→ltb, ◌==◌, ==_iff, if_elim, length, get_or,
}
use delta_os.Base.Bits.{bit, shl_one, bit_and-shl_one, bit_and_step, bit_and_nothing}
use delta_os.Keyboard.{
  Keyboard, released, key_of, char_of, press, handle_keyboard_scancode, scancode_to_ascii,
  scancode_to_ascii_shift,
}
use delta_os.Keyboard.Ring.{IsRing, waiting, length-span, count, enqueue_lem}

released-leb : (sc : ℕ) → sc < 256 → released sc ≡ leb 128 sc
unfolding released bit shl_one
released-leb sc h =
    let m : bit_and sc 128 ≡ bit sc 7 * 128 = bit_and-shl_one sc 7 in ground (arith, m)

-- Masks of ones are remainders, from the narrowest on.
bit_and-one : (x : ℕ) → bit_and x 1 ≡ x % 2
bit_and-one x = omega (arith, bit_and_step x 1, bit_and_nothing (x / 2) (x / 2) (omega arith))

bit_and-three : (x : ℕ) → bit_and x 3 ≡ x % 4
bit_and-three x =
    let half : bit_and x 3 ≡ bit_and (x / 2) 1 * 2 + min (x % 2) 1 = bit_and_step x 3 in
    omega (arith, half, bit_and-one (x / 2))

bit_and-seven : (x : ℕ) → bit_and x 7 ≡ x % 8
bit_and-seven x =
    let half : bit_and x 7 ≡ bit_and (x / 2) 3 * 2 + min (x % 2) 1 = bit_and_step x 7 in
    omega (arith, half, bit_and-three (x / 2))

bit_and-fifteen : (x : ℕ) → bit_and x 15 ≡ x % 16
bit_and-fifteen x =
    let half : bit_and x 15 ≡ bit_and (x / 2) 7 * 2 + min (x % 2) 1 = bit_and_step x 15 in
    omega (arith, half, bit_and-seven (x / 2))

bit_and-thirty_one : (x : ℕ) → bit_and x 31 ≡ x % 32
bit_and-thirty_one x =
    let half : bit_and x 31 ≡ bit_and (x / 2) 15 * 2 + min (x % 2) 1 = bit_and_step x 31 in
    omega (arith, half, bit_and-fifteen (x / 2))

bit_and-sixty_three : (x : ℕ) → bit_and x 63 ≡ x % 64
bit_and-sixty_three x =
    let half : bit_and x 63 ≡ bit_and (x / 2) 31 * 2 + min (x % 2) 1 = bit_and_step x 63 in
    omega (arith, half, bit_and-thirty_one (x / 2))

bit_and-low : (x : ℕ) → bit_and x 127 ≡ x % 128
bit_and-low x =
    let half : bit_and x 127 ≡ bit_and (x / 2) 63 * 2 + min (x % 2) 1 = bit_and_step x 127 in
    omega (arith, half, bit_and-sixty_three (x / 2))

key_of-mod : (sc : ℕ) → key_of sc ≡ sc % 128
unfolding key_of
key_of-mod sc = bit_and-low sc

abbrev pub is_shift : ℕ → Bool
is_shift key = (key == 0x2A) || (key == 0x36)

-- Shift is held from its press to its release; a release has the highest bit set.
abbrev pub shift_after : Bool → ℕ → Bool
shift_after shift sc = if is_shift (sc % 128) then ltb sc 128 else shift

abbrev pub symbol : Bool → ℕ → ℕ
symbol shift key = get_or (if shift then scancode_to_ascii_shift else scancode_to_ascii) key 0

-- The character that a scancode types, or 0.
abbrev pub typed : Bool → ℕ → ℕ
typed shift sc =
    if leb 128 sc then 0 else if is_shift sc || (sc == 0x3A) then 0 else symbol shift sc

-- A bounded queue takes a character that is not 0 while fewer than 255 wait.
abbrev pub accept : List ℕ → ℕ → List ℕ
accept q c = if c == 0 then q else if ltb (length q) 255 then q ++ c ∷ [] else q

record Handled (k k' : Keyboard) (held : Bool) (c : ℕ) : Type 0 where
  ring : IsRing k'
  shift : k'.shift_pressed ≡ held
  queue : waiting k' ≡ accept (waiting k) c

kept-Handled : (k : Keyboard) (c : ℕ) → IsRing k → c ≡ 0 → Handled k k k.shift_pressed c
kept-Handled k c v e = record { ring = v; shift = refl; queue = rw e refl }

press-Handled :
    (k : Keyboard) (key : ℕ)
    → IsRing k
    → key < 128
    → Handled k (press k key) k.shift_pressed (symbol k.shift_pressed key)
unfolding press char_of
press-Handled k key v h =
    let c : ℕ = symbol k.shift_pressed key in
    rw (lt→ltb key 128 h) (
      if_elim (λ x. Handled k x k.shift_pressed c) (c == 0)
        (λ e. kept-Handled k c v ((==_iff _ _).0 e))
        (λ e.
          let (q, r, s, _) = enqueue_lem k c v in
          record { ring = r; shift = s; queue = rw (e, length-span k.buffer k.tail (count k)) q }))

typed-none :
    (shift : Bool) (sc : ℕ)
    → (leb 128 sc || (is_shift (sc % 128) || (sc % 128 == 0x3A))) ≡ true
    → typed shift sc ≡ 0
typed-none shift sc h = ground arith

typed-symbol :
    (shift : Bool) (sc : ℕ)
    → leb 128 sc ≡ false
    → (is_shift sc || (sc == 0x3A)) ≡ false
    → typed shift sc ≡ symbol shift sc
typed-symbol shift sc e f = rw (e, f)

shift_after-other :
    (shift : Bool) (sc : ℕ) → is_shift (sc % 128) ≡ false → shift_after shift sc ≡ shift
shift_after-other shift sc e = rw e

not-leb : (sc : ℕ) → not (leb 128 sc) ≡ ltb sc 128
not-leb sc = ground arith

-- A scancode leaves shift held or not, and types at most one character.
handle-Handled :
    (k : Keyboard) (sc : ℕ)
    → IsRing k
    → sc < 256
    → Handled k
        (handle_keyboard_scancode k sc)
        (shift_after k.shift_pressed sc)
        (typed k.shift_pressed sc)
unfolding handle_keyboard_scancode
handle-Handled k sc v h =
    let shift : Bool = k.shift_pressed in
    let Goal : Keyboard → Type 0 = λ x. Handled k x (shift_after shift sc) (typed shift sc) in
    rw (key_of-mod sc, released-leb sc h)
      (if_elim Goal (is_shift (sc % 128))
        (λ e. record {
          ring = record { size = v.size; head_in = v.head_in; tail_in = v.tail_in };
          shift = rw e (not-leb sc);
          queue = rw (typed-none shift sc (ground (arith, e))) refl;
        })
        (λ e.
          let same : shift_after shift sc ≡ shift = shift_after-other shift sc e in
          if_elim Goal (sc % 128 == 0x3A)
            (λ f.
              let none' : typed shift sc ≡ 0 = typed-none shift sc (ground (arith, f)) in
              if_elim Goal (not (leb 128 sc))
                (λ g. record {
                  ring = record { size = v.size; head_in = v.head_in; tail_in = v.tail_in };
                  shift = sym same;
                  queue = rw none' refl;
                })
                (λ g. rw same (kept-Handled k (typed shift sc) v none')))
            (λ f.
              if_elim Goal (leb 128 sc)
                (λ g.
                  rw same
                    (kept-Handled k (typed shift sc) v (typed-none shift sc (ground (arith, g)))))
                (λ g.
                  let low : sc % 128 ≡ sc = ground (arith, g) in
                  rw (same, typed-symbol shift sc g (ground (arith, e, f, low)), low)
                    (press-Handled k sc v (ground (arith, g)))))))

-- On a ring with its indices in the buffer, a scancode leaves shift held from the press of a shift
-- key to its release. The press of another key puts the key's symbol, if it has one, behind the
-- waiting characters, while fewer than 255 wait; no other scancode changes these.
pub handle_keyboard_scancode_lem :
    (k : Keyboard) (sc : ℕ)
    → IsRing k
    → sc < 256
    → let k' = handle_keyboard_scancode k sc in
      IsRing k'
      × (k'.shift_pressed ≡ shift_after k.shift_pressed sc)
      × (waiting k' ≡ accept (waiting k) (typed k.shift_pressed sc))
handle_keyboard_scancode_lem k sc v h =
    let r = handle-Handled k sc v h in (r.ring, r.shift, r.queue)
