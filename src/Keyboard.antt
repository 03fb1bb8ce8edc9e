-- ===== src/Keyboard.antt =====
-- src/interrupts.rs: the keyboard's ring buffer and the handler of its scancodes. The statics are
-- the fields of a record; KEYBOARD_BUFFER is a list of 256 bytes.
pub mod Ring
pub mod Scancode
pub mod Typing
use Prim.Native.Nat.{bit_and}
use delta_os.Base.{
  ℕ, ◌+◌, ◌%◌, Bool, true, false, not, ◌||◌, List, [], ◌∷◌, if◌then◌else◌, ltb, ◌==◌, get_or, set,
  replicate,
}

pub record Keyboard : Type 0 where
  pub buffer : List ℕ
  pub head : ℕ
  pub tail : ℕ
  pub shift_pressed : Bool
  pub caps_lock : Bool

abbrev pub start_up : Keyboard
start_up = record {
  buffer = replicate 256 0;
  head = 0;
  tail = 0;
  shift_pressed = false;
  caps_lock = false;
}

unfoldable pub keyboard_has_data : Keyboard → Bool
keyboard_has_data k = not (k.head == k.tail)

unfoldable pub keyboard_read_char : Keyboard → ℕ × Keyboard
keyboard_read_char k =
    if k.head == k.tail
    then (0, k)
    else (get_or k.buffer k.tail 0, record k { tail = (k.tail + 1) % 256 })

unfoldable pub scancode_to_ascii : List ℕ
scancode_to_ascii =
    0 ∷ 27 ∷ 49 ∷ 50 ∷ 51 ∷ 52 ∷ 53 ∷ 54 ∷ 55 ∷ 56 ∷ 57 ∷ 48 ∷ 45 ∷ 61 ∷ 8 ∷ 9 ∷ 113 ∷ 119 ∷ 101
    ∷ 114 ∷ 116 ∷ 121 ∷ 117 ∷ 105 ∷ 111 ∷ 112 ∷ 91 ∷ 93 ∷ 10 ∷ 0 ∷ 97 ∷ 115 ∷ 100 ∷ 102 ∷ 103 ∷ 104
    ∷ 106 ∷ 107 ∷ 108 ∷ 59 ∷ 39 ∷ 96 ∷ 0 ∷ 92 ∷ 122 ∷ 120 ∷ 99 ∷ 118 ∷ 98 ∷ 110 ∷ 109 ∷ 44 ∷ 46 ∷ 47
    ∷ 0 ∷ 42 ∷ 0 ∷ 32 ∷ 0 ∷ 0 ∷ 0 ∷ 0 ∷ 0 ∷ 0 ∷ 0 ∷ 0 ∷ 0 ∷ 0 ∷ 0 ∷ 0 ∷ 0 ∷ 0 ∷ 0 ∷ 0 ∷ 0 ∷ 0 ∷ 0
    ∷ 0 ∷ 0 ∷ 0 ∷ 0 ∷ 0 ∷ 45 ∷ 0 ∷ 0 ∷ 0 ∷ 43 ∷ 0 ∷ 0 ∷ 0 ∷ 0 ∷ 0 ∷ 0 ∷ 0 ∷ 0 ∷ 0 ∷ 0 ∷ 0 ∷ 0 ∷ 0
    ∷ 0 ∷ 0 ∷ 0 ∷ 0 ∷ 0 ∷ 0 ∷ 0 ∷ 0 ∷ 0 ∷ 0 ∷ 0 ∷ 0 ∷ 0 ∷ 0 ∷ 0 ∷ 0 ∷ 0 ∷ 0 ∷ 0 ∷ 0 ∷ 0 ∷ 0 ∷ 0 ∷ 0
    ∷ 0 ∷ 0 ∷ 0 ∷ 0 ∷ []

unfoldable pub scancode_to_ascii_shift : List ℕ
scancode_to_ascii_shift =
    0 ∷ 27 ∷ 33 ∷ 64 ∷ 35 ∷ 36 ∷ 37 ∷ 94 ∷ 38 ∷ 42 ∷ 40 ∷ 41 ∷ 95 ∷ 43 ∷ 8 ∷ 9 ∷ 81 ∷ 87 ∷ 69 ∷ 82
    ∷ 84 ∷ 89 ∷ 85 ∷ 73 ∷ 79 ∷ 80 ∷ 123 ∷ 125 ∷ 10 ∷ 0 ∷ 65 ∷ 83 ∷ 68 ∷ 70 ∷ 71 ∷ 72 ∷ 74 ∷ 75 ∷ 76
    ∷ 58 ∷ 34 ∷ 126 ∷ 0 ∷ 124 ∷ 90 ∷ 88 ∷ 67 ∷ 86 ∷ 66 ∷ 78 ∷ 77 ∷ 60 ∷ 62 ∷ 63 ∷ 0 ∷ 42 ∷ 0 ∷ 32
    ∷ 0 ∷ 0 ∷ 0 ∷ 0 ∷ 0 ∷ 0 ∷ 0 ∷ 0 ∷ 0 ∷ 0 ∷ 0 ∷ 0 ∷ 0 ∷ 0 ∷ 0 ∷ 0 ∷ 0 ∷ 0 ∷ 0 ∷ 0 ∷ 0 ∷ 0 ∷ 0 ∷ 0
    ∷ 45 ∷ 0 ∷ 0 ∷ 0 ∷ 43 ∷ 0 ∷ 0 ∷ 0 ∷ 0 ∷ 0 ∷ 0 ∷ 0 ∷ 0 ∷ 0 ∷ 0 ∷ 0 ∷ 0 ∷ 0 ∷ 0 ∷ 0 ∷ 0 ∷ 0 ∷ 0
    ∷ 0 ∷ 0 ∷ 0 ∷ 0 ∷ 0 ∷ 0 ∷ 0 ∷ 0 ∷ 0 ∷ 0 ∷ 0 ∷ 0 ∷ 0 ∷ 0 ∷ 0 ∷ 0 ∷ 0 ∷ 0 ∷ 0 ∷ 0 ∷ 0 ∷ 0 ∷ 0 ∷ []

-- `(scancode & 0x80) != 0` and `scancode & 0x7F`.
unfoldable pub released : ℕ → Bool
released scancode = not (bit_and scancode 0x80 == 0)

unfoldable pub key_of : ℕ → ℕ
key_of scancode = bit_and scancode 0x7F

-- The innermost block of the handler: a character joins the ring unless the ring is full.
unfoldable pub enqueue : Keyboard → ℕ → Keyboard
enqueue k ch =
    let next_head : ℕ = (k.head + 1) % 256 in
    if next_head == k.tail
    then k
    else record k { buffer = set k.buffer k.head ch; head = next_head }

unfoldable pub char_of : Keyboard → ℕ → ℕ
char_of k key =
    get_or (if k.shift_pressed then scancode_to_ascii_shift else scancode_to_ascii) key 0

unfoldable pub press : Keyboard → ℕ → Keyboard
unfolding enqueue char_of
press k key = if ltb key 128 then if char_of k key == 0 then k else enqueue k (char_of k key) else k

unfoldable pub handle_keyboard_scancode : Keyboard → ℕ → Keyboard
handle_keyboard_scancode k scancode =
    let key : ℕ = key_of scancode in
    if (key == 0x2A) || (key == 0x36)
    then record k { shift_pressed = not (released scancode) }
    else if key == 0x3A
    then if not (released scancode) then record k { caps_lock = not k.caps_lock } else k
    else if released scancode
    then k
    else press k key
