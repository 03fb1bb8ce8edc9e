-- ===== src/Keyboard/Typing.antt =====
-- src/interrupts.rs: what scancodes type is read back in order.
use delta_os.Base.{
  ℕ, zero, suc, ◌+◌, ◌<◌, ◌≤◌, ◌≡◌, refl, ap, sym, ap₂, ◌∙◌, inl, inr, Bool, true, false, List, [],
  ◌∷◌, ◌++◌, arith, if◌then◌else◌, ltb, lt→ltb, ◌==◌, Bool-cases, length, All, length-append,
  length-replicate,
}
use mathlib.Core.List.{append-nil, append_assoc}
use delta_os.Keyboard.{Keyboard, start_up, keyboard_read_char, handle_keyboard_scancode}
use delta_os.Keyboard.Ring.{IsRing, waiting, span, keyboard_read_char_lem}
use delta_os.Keyboard.Scancode.{shift_after, typed, handle_keyboard_scancode_lem}

-- The scancodes that arrive, in order.
unfoldable pub scan : List ℕ → Keyboard → Keyboard
scan [] k = k
scan (sc ∷ scs) k = scan scs (handle_keyboard_scancode k sc)

-- The characters that scancodes type, from a state of shift on.
abbrev pub text : Bool → List ℕ → List ℕ
text shift [] = []
text shift (sc ∷ scs) =
    let rest = text (shift_after shift sc) scs in
    if typed shift sc == 0 then rest else typed shift sc ∷ rest

-- `keyboard_read_char`, a number of times.
unfoldable pub reads : ℕ → Keyboard → List ℕ
reads zero k = []
reads (suc n) k = let (ch, k') = keyboard_read_char k in ch ∷ reads n k'

abbrev pub IsBytes : List ℕ → Type 0
IsBytes scs = All (λ sc. sc < 256) scs

scan_lem :
    (scs : List ℕ) (k : Keyboard)
    → IsRing k
    → IsBytes scs
    → length (waiting k) + length (text k.shift_pressed scs) ≤ 255
    → (waiting (scan scs k) ≡ waiting k ++ text k.shift_pressed scs) × IsRing (scan scs k)
unfolding scan
scan_lem [] k v b h = (sym (append-nil (waiting k)), v)
scan_lem (sc ∷ scs) k v b h =
    let (ring, shift, queue) = handle_keyboard_scancode_lem k sc v b.0 in
    let k' : Keyboard = handle_keyboard_scancode k sc in
    let c : ℕ = typed k.shift_pressed sc in
    let rest : List ℕ = text (shift_after k.shift_pressed sc) scs in
    elim (Bool-cases (c == 0)) [
      | inl e ↦
          let t : text k.shift_pressed (sc ∷ scs) ≡ rest = rw e refl in
          let q : waiting k' ≡ waiting k = queue ∙ rw e refl in
          let len : length (waiting k') ≡ length (waiting k) = ap length q in
          let len' : length (text k.shift_pressed (sc ∷ scs)) ≡ length rest = ap length t in
          let bound : length (waiting k') + length (text k'.shift_pressed scs) ≤ 255 =
            rw shift (omega (arith, h, len, len')) in
          let (r, ring') = scan_lem scs k' ring b.1 bound in (r ∙ rw (q, shift, t) refl, ring')
      | inr e ↦
          let t : text k.shift_pressed (sc ∷ scs) ≡ c ∷ rest = rw e refl in
          let len' : length (text k.shift_pressed (sc ∷ scs)) ≡ suc (length rest) = ap length t in
          let room : ltb (length (waiting k)) 255 ≡ true = lt→ltb _ _ (omega (arith, h, len')) in
          let q : waiting k' ≡ waiting k ++ c ∷ [] = queue ∙ rw (e, room) refl in
          let len : length (waiting k') ≡ length (waiting k) + 1 =
            ap length q ∙ length-append (waiting k) (c ∷ []) in
          let bound : length (waiting k') + length (text k'.shift_pressed scs) ≤ 255 =
            rw shift (omega (arith, h, len, len')) in
          let (r, ring') = scan_lem scs k' ring b.1 bound in
          (r ∙ rw (q, shift, t) (append_assoc (waiting k) (c ∷ []) rest), ring')
    ]

reads_lem : (k : Keyboard) (cs : List ℕ) → IsRing k → waiting k ≡ cs → reads (length cs) k ≡ cs
unfolding reads
reads_lem k [] v e = refl
reads_lem k (c ∷ cs) v e =
    let (w, two) = keyboard_read_char_lem k v in
    elim two [
      | inl (q, _, _, _) ↦ absurd (cc (q, e))
      | inr (q, _) ↦
          let p : (keyboard_read_char k).0 ∷ waiting (keyboard_read_char k).1 ≡ c ∷ cs =
            sym q ∙ e in
          let first : (keyboard_read_char k).0 ≡ c = cc in
          let later : waiting (keyboard_read_char k).1 ≡ cs = cc in
          ap₂ (λ (x : ℕ) xs. x ∷ xs) first (reads_lem (keyboard_read_char k).1 cs w later)
    ]

start_up-IsRing : IsRing start_up
start_up-IsRing = record {
  size = length-replicate {A = ℕ} 256 0;
  head_in = omega arith;
  tail_in = omega arith;
}

-- The characters that a sequence of at most 255 typed characters gives are read back in order, from
-- the kernel's start on; caps lock has no part in it.
pub reads-scan :
    (scs : List ℕ)
    → IsBytes scs
    → length (text false scs) ≤ 255
    → reads (length (text false scs)) (scan scs start_up) ≡ text false scs
unfolding span
reads-scan scs b h =
    let (q, v) = scan_lem scs start_up start_up-IsRing b (omega (arith, h)) in
    reads_lem (scan scs start_up) (text false scs) v q
