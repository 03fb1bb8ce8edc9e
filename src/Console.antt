-- ===== src/Console.antt =====
-- src/lib.rs: the VGA text screen with the serial line beside it, and the numbers of the command line.
pub mod Line
pub mod Numbers
pub mod Screen
use Prim.Native.Nat.{bit_or}
use delta_os.Base.{
  ℕ, zero, suc, ◌+◌, ◌-◌, ◌*◌, ◌/◌, ◌%◌, ◌^◌, Bool, true, false, not, ◌&&◌, ◌||◌, List, [], ◌∷◌,
  ◌++◌, Option, none, some, if◌then◌else◌, ◌==◌, ltb, leb, get_or, set,
}
use delta_os.Base.Word.{u8_mod, u64_mod}
use delta_os.Vfs.Path.{Text, starts_with}

abbrev pub vga_w : ℕ
vga_w = 80

abbrev pub vga_h : ℕ
vga_h = 25

-- The fields of KERNEL_STATE that belong to the screen, the words at VGA_BUF, and the bytes sent to COM1.
pub record Console : Type 0 where
  pub cells : List ℕ
  pub vga_row : ℕ
  pub vga_col : ℕ
  pub vga_color : ℕ
  pub serial : List ℕ

-- The copy of `scroll`'s nested loops, in their order: `count` cells from `at` on, each from the row below.
unfoldable pub copy_up : ℕ → ℕ → List ℕ → List ℕ
copy_up zero at cells = cells
copy_up (suc count) at cells = copy_up count (suc at) (set cells at (get_or cells (at + vga_w) 0))

unfoldable pub fill : ℕ → ℕ → List ℕ → List ℕ
fill zero at cells = cells
fill (suc count) at cells = fill count (suc at) (set cells at 0x0F20)

unfoldable pub scroll : Console → Console
scroll c =
    if leb vga_h c.vga_row
    then record c {
      cells = fill vga_w ((vga_h - 1) * vga_w) (copy_up ((vga_h - 1) * vga_w) 0 c.cells);
      vga_row = vga_h - 1;
      vga_col = 0;
    }
    else c

-- `(byte as u16) | ((color as u16) << 8)`
abbrev pub cell_of : Console → ℕ → ℕ
cell_of c byte = bit_or byte (c.vga_color * 256)

unfoldable pub advance : Console → Console
advance c =
    if leb vga_w (c.vga_col + 1)
    then record c { vga_col = 0; vga_row = c.vga_row + 1 }
    else record c { vga_col = c.vga_col + 1 }

unfoldable pub put_byte : Console → ℕ → Console
put_byte c byte =
    if byte == 10
    then record c { vga_row = c.vga_row + 1; vga_col = 0 }
    else advance (record c { cells = set c.cells (c.vga_row * vga_w + c.vga_col) (cell_of c byte) })

unfoldable pub put_bytes : Console → Text → Console
put_bytes c [] = c
put_bytes c (byte ∷ msg) = put_bytes (scroll (put_byte c byte)) msg

-- The wait for the line to be ready is device I/O.
unfoldable pub serial_print : Console → Text → Console
serial_print c msg = record c { serial = c.serial ++ msg }

unfoldable pub vga_print : Console → Text → Console
vga_print c msg = serial_print (put_bytes c msg) msg

unfoldable pub vga_print_char : Console → ℕ → Console
vga_print_char c byte = vga_print c (byte ∷ [])

-- A colour of 16 or more loses what the shift of a u8 drops.
unfoldable pub vga_set_color : Console → ℕ → ℕ → Console
vga_set_color c fg bg = record c { vga_color = bit_or (bg * 16 % u8_mod) fg }

unfoldable pub vga_clear : Console → Console
vga_clear c = record c { cells = fill (vga_w * vga_h) 0 c.cells; vga_row = 0; vga_col = 0 }

unfoldable pub bcd_to_binary : ℕ → ℕ
bcd_to_binary val = (val % 16 + val / 16 * 10) % u8_mod

-- The value of a digit of base 16; 10 or more for a letter.
unfoldable pub hex_digit : ℕ → Option ℕ
hex_digit ch =
    if leb 48 ch && leb ch 57
    then some (ch - 48)
    else if leb 97 ch && leb ch 102
    then some (ch - 97 + 10)
    else if leb 65 ch && leb ch 70
    then some (ch - 65 + 10)
    else none

unfoldable pub dec_digit : ℕ → Option ℕ
dec_digit ch = if leb 48 ch && leb ch 57 then some (ch - 48) else none

-- The loops of `parse_hex` and `parse_int`: 0 at the first character that is no digit.
unfoldable pub parse_digits : ℕ → (ℕ → Option ℕ) → Text → ℕ → ℕ
parse_digits base digit [] result = result
parse_digits base digit (ch ∷ s) result = elim (digit ch) [
  | none ↦ 0
  | some d ↦ parse_digits base digit s ((result * base % u64_mod + d) % u64_mod)
]

-- `s.strip_prefix(p).unwrap_or(s)` for the prefixes "0x" and "0X".
abbrev pub strip_zero : ℕ → Text → Text
strip_zero x [] = []
strip_zero x (c ∷ []) = c ∷ []
strip_zero x (c ∷ d ∷ s) = if c == 48 && d == x then s else c ∷ d ∷ s

unfoldable pub parse_hex : Text → ℕ
parse_hex s = parse_digits 16 hex_digit (strip_zero 88 (strip_zero 120 s)) 0

unfoldable pub parse_int : Text → ℕ
parse_int s =
    if starts_with s (48 ∷ 120 ∷ []) || starts_with s (48 ∷ 88 ∷ [])
    then parse_hex s
    else parse_digits 10 dec_digit s 0
