-- ===== src/Console/Line.antt =====
-- src/lib.rs: the line editor of `shell`. The keys are a list, in the order `keyboard_read_char` returns
-- them; what it prints goes to the console.
use delta_os.Base.{
  ℕ, zero, suc, ◌+◌, ◌-◌, ◌≤◌, ◌<◌, ◌≡◌, ◌≢◌, refl, sym, ap, subst, ◌∙◌, Bool, true, false, ◌&&◌,
  List, [], ◌∷◌, ◌++◌, Option, none, some, if◌then◌else◌, ◌==◌, ==_iff, ltb, leb, set, length,
  length-set, if_elim, All, take, arith,
}
use delta_os.Vfs.Path.{Text}
use delta_os.Console.{Console, vga_print_char}

-- `input_buf` and `input_pos`, with the screen.
pub record Editor : Type 0 where
  pub input_buf : Text
  pub input_pos : ℕ
  pub console : Console

-- The start of a line: behind the prompt.
unfoldable pub begin_line : Editor → Editor
begin_line e = record e { input_pos = 0; input_buf = set e.input_buf 0 0 }

unfoldable pub erase : Editor → Editor
erase e =
    if ltb 0 e.input_pos
    then record e {
      input_pos = e.input_pos - 1;
      input_buf = set e.input_buf (e.input_pos - 1) 0;
      console = vga_print_char (vga_print_char (vga_print_char e.console 8) 32) 8;
    }
    else e

unfoldable pub insert_char : Editor → ℕ → Editor
insert_char e ch =
    if leb 32 ch && ltb e.input_pos 255
    then record e {
      input_buf = set e.input_buf e.input_pos ch;
      input_pos = e.input_pos + 1;
      console = vga_print_char e.console ch;
    }
    else e

unfoldable pub type_key : Editor → ℕ → Editor
type_key e ch = if ch == 8 then erase e else insert_char e ch

-- The newline: the text before the position, `&input_buf[..input_pos]`, is left.
unfoldable pub submit : Editor → Editor
submit e = record e {
  input_buf = set e.input_buf e.input_pos 0;
  console = vga_print_char e.console 10;
}

-- The line for `execute_command`, the editor behind it and the keys that wait; `none` while no newline came.
unfoldable pub read_line : Editor → List ℕ → Option (Text × Editor × List ℕ)
read_line e [] = none
read_line e (ch ∷ keys) =
    let rest = read_line (type_key e ch) keys in
    if ch == 10 then some (take e.input_pos (submit e).input_buf, submit e, keys) else rest

-- What a line says after more keys, on texts alone.
unfoldable pub drop_last : Text → Text
drop_last [] = []
drop_last (c ∷ []) = []
drop_last (c ∷ d ∷ s) = c ∷ drop_last (d ∷ s)

unfoldable pub edit : Text → ℕ → Text
edit s k = if k == 8 then drop_last s else if leb 32 k && ltb (length s) 255 then s ++ k ∷ [] else s

unfoldable pub edited : Text → List ℕ → Text
edited s [] = s
edited s (k ∷ keys) = edited (edit s k) keys

take-set : (n v : ℕ) (s : Text) → take n (set s n v) ≡ take n s
take-set zero v s = refl
take-set (suc n) v [] = refl
take-set (suc n) v (c ∷ s) = ap (λ t. c ∷ t) (take-set n v s)

take-set_last : (n v : ℕ) (s : Text) → n < length s → take (suc n) (set s n v) ≡ take n s ++ v ∷ []
take-set_last n v [] lt = absurd (omega arith)
take-set_last zero v (c ∷ s) lt = refl
take-set_last (suc n) v (c ∷ s) lt = ap (λ t. c ∷ t) (take-set_last n v s (omega arith))

drop_last-take : (n : ℕ) (s : Text) → n < length s → drop_last (take (suc n) s) ≡ take n s
unfolding drop_last
drop_last-take n [] lt = absurd (omega arith)
drop_last-take zero (c ∷ s) lt = refl
drop_last-take (suc n) (c ∷ []) lt = absurd (omega arith)
drop_last-take (suc n) (c ∷ d ∷ s) lt = ap (λ t. c ∷ t) (drop_last-take n (d ∷ s) (omega arith))

length-take : (n : ℕ) (s : Text) → n ≤ length s → length (take n s) ≡ n
length-take zero s le = refl
length-take (suc n) [] le = absurd (omega arith)
length-take (suc n) (c ∷ s) le = ap suc (length-take n s (omega arith))

-- The buffer has its size, the position leaves room for the final 0, and the text before it is `s`.
unfoldable pub Says : Text → Editor → Type 0
Says s e = (length e.input_buf ≡ 256) × (e.input_pos ≤ 255) × (take e.input_pos e.input_buf ≡ s)

pub begin_line-Says : (e : Editor) → length e.input_buf ≡ 256 → Says [] (begin_line e)
unfolding Says begin_line
begin_line-Says e l = (length-set e.input_buf 0 0 ∙ l, omega arith, refl)

erase-Says : (s : Text) (e : Editor) → Says s e → Says (drop_last s) (erase e)
unfolding Says erase drop_last
erase-Says s e (l, p, t) =
    if_elim (Says (drop_last s)) (ltb 0 e.input_pos)
      (λ h.
        let at : suc (e.input_pos - 1) ≡ e.input_pos = ground (arith, h) in
        (
          length-set e.input_buf (e.input_pos - 1) 0 ∙ l,
          omega arith,
          take-set (e.input_pos - 1) 0 e.input_buf
              ∙ (sym (drop_last-take (e.input_pos - 1) e.input_buf (omega arith))
                  ∙ ap drop_last (ap (λ n. take n e.input_buf) at ∙ t)),
        ))
      λ h.
        let none_typed : e.input_pos ≡ 0 = ground (arith, h) in
        let none_yet : take e.input_pos e.input_buf ≡ [] =
          ap (λ n. take n e.input_buf) none_typed in
        (l, p, none_yet ∙ ap drop_last (sym none_yet ∙ t))

if-Says :
    (b : Bool) (s t : Text) (d e : Editor)
    → (b ≡ true → Says s d)
    → (b ≡ false → Says t e)
    → Says (if b then s else t) (if b then d else e)
if-Says true s t d e f g = f refl
if-Says false s t d e f g = g refl

insert_char-Says :
    (s : Text) (e : Editor) (k : ℕ)
    → Says s e
    → Says (if leb 32 k && ltb (length s) 255 then s ++ k ∷ [] else s) (insert_char e k)
unfolding Says insert_char
insert_char-Says s e k (l, p, t) =
    let size : e.input_pos ≡ length s =
      sym (length-take e.input_pos e.input_buf (omega arith)) ∙ ap length t in
    subst (λ n. Says (if leb 32 k && ltb n 255 then s ++ k ∷ [] else s) (insert_char e k)) size
      (if-Says (leb 32 k && ltb e.input_pos 255) _ _ _ _
        (λ h.
          let next : e.input_pos + 1 ≡ suc e.input_pos = omega arith in
          (
            length-set e.input_buf e.input_pos k ∙ l,
            ground (arith, h),
            ap (λ n. take n (set e.input_buf e.input_pos k)) next
                ∙ (take-set_last e.input_pos k e.input_buf (omega arith) ∙ ap (λ u. u ++ k ∷ []) t),
          ))
        λ h. (l, p, t))

type_key-Says : (s : Text) (e : Editor) (k : ℕ) → Says s e → Says (edit s k) (type_key e k)
unfolding edit type_key
type_key-Says s e k i =
    if-Says (k == 8) _ _ _ _ (λ _. erase-Says s e i) λ _. insert_char-Says s e k i

-- What `read_line` returns once the newline is among the keys.
read_line-Says :
    (s : Text) (e : Editor) (keys rest : List ℕ)
    → Says s e
    → All (λ k. k ≢ 10) keys
    → (e' : Editor) × (length e'.input_buf ≡ 256)
      × (read_line e (keys ++ 10 ∷ rest) ≡ some (edited s keys, e', rest))
unfolding read_line edited Says submit
read_line-Says s e [] rest (l, p, t) a = (
  submit e,
  length-set e.input_buf e.input_pos 0 ∙ l,
  ap (λ u. some (u, submit e, rest)) (take-set e.input_pos 0 e.input_buf ∙ t),
)
read_line-Says s e (k ∷ keys) rest i (ne, a) =
    let (e', l, r) = read_line-Says (edit s k) (type_key e k) keys rest (type_key-Says s e k i) a in
    (
      e',
      l,
      if_elim (λ r. r ≡ some (edited (edit s k) keys, e', rest)) (k == 10)
          (λ h. absurd (ne ((==_iff k 10).0 h))) λ _. r,
    )

read_line_waits : (e : Editor) (keys : List ℕ) → All (λ k. k ≢ 10) keys → read_line e keys ≡ none
unfolding read_line
read_line_waits e [] a = refl
read_line_waits e (k ∷ keys) (ne, a) =
    if_elim (λ r. r ≡ none) (k == 10) (λ h. absurd (ne ((==_iff k 10).0 h)))
      λ _. read_line_waits (type_key e k) keys a

-- From the start of a line, with a buffer of 256 bytes: while the keys hold no newline `read_line` waits for
-- more; at the newline it returns what the keys before it edit on an empty text, where a backspace takes the
-- last character away and a character from 32 on is added while there are less than 255; the keys behind
-- the newline stay, and the buffer keeps its size.
pub read_line-edited :
    (e : Editor) (keys rest : List ℕ)
    → length e.input_buf ≡ 256
    → All (λ k. k ≢ 10) keys
    → (read_line (begin_line e) keys ≡ none)
      × ((e' : Editor) × (length e'.input_buf ≡ 256)
          × (read_line (begin_line e) (keys ++ 10 ∷ rest) ≡ some (edited [] keys, e', rest)))
read_line-edited e keys rest l a = (
  read_line_waits (begin_line e) keys a,
  read_line-Says [] (begin_line e) keys rest (begin_line-Says e l) a,
)
