-- ===== src/Console/Screen.antt =====
-- src/lib.rs: the cursor stays on the screen, and writes go inside it.
use delta_os.Base.{
  ℕ, zero, suc, ◌+◌, ◌-◌, ◌*◌, ◌≤◌, ◌<◌, ◌≡◌, refl, ◌∙◌, List, [], ◌∷◌, ◌==◌, leb, get_or, length,
  length-set, if_elim, arith,
}
use delta_os.Console.{
  vga_w, vga_h, Console, copy_up, fill, scroll, cell_of, advance, put_byte, put_bytes, serial_print,
  vga_print,
}

-- The screen has its size, and the cursor is on it.
unfoldable pub IsConsole : Console → Type 0
IsConsole c = (length c.cells ≡ 2000) × (c.vga_row < 25) × (c.vga_col < 80)

-- The cell at the cursor is one of the screen's.
pub cursor_within : (c : Console) → IsConsole c → c.vga_row * vga_w + c.vga_col < length c.cells
unfolding IsConsole
cursor_within c (a, b, d) = omega arith

length-copy_up : (count at : ℕ) (cells : List ℕ) → length (copy_up count at cells) ≡ length cells
unfolding copy_up
length-copy_up zero at cells = refl
length-copy_up (suc count) at cells =
    length-copy_up count (suc at) _ ∙ length-set cells at (get_or cells (at + vga_w) 0)

length-fill : (count at : ℕ) (cells : List ℕ) → length (fill count at cells) ≡ length cells
unfolding fill
length-fill zero at cells = refl
length-fill (suc count) at cells = length-fill count (suc at) _ ∙ length-set cells at 0x0F20

-- Between a byte and the scroll the row may be one below the screen, at its first column.
Edge : Console → Type 0
Edge c = (length c.cells ≡ 2000) × (c.vga_row ≤ 25) × (c.vga_col < 80)

advance-Edge : (c : Console) → IsConsole c → Edge (advance c)
unfolding IsConsole advance Edge
advance-Edge c (a, b, d) =
    if_elim Edge (leb vga_w (c.vga_col + 1)) (λ _. (a, omega arith, omega arith))
      λ e. (a, omega arith, ground (arith, e))

put_byte-Edge : (c : Console) (byte : ℕ) → IsConsole c → Edge (put_byte c byte)
unfolding IsConsole put_byte Edge
put_byte-Edge c byte (a, b, d) =
    if_elim Edge (byte == 10) (λ _. (a, omega arith, omega arith))
      λ _.
        advance-Edge _
          (length-set c.cells (c.vga_row * vga_w + c.vga_col) (cell_of c byte) ∙ a, b, d)

scroll-IsConsole : (c : Console) → Edge c → IsConsole (scroll c)
unfolding IsConsole scroll Edge
scroll-IsConsole c (a, b, d) =
    if_elim IsConsole (leb vga_h c.vga_row)
      (λ _. (
        length-fill vga_w ((vga_h - 1) * vga_w) _
            ∙ (length-copy_up ((vga_h - 1) * vga_w) 0 c.cells ∙ a),
        omega arith,
        omega arith,
      ))
      λ e. (a, ground (arith, e), d)

put_bytes-IsConsole : (c : Console) (msg : List ℕ) → IsConsole c → IsConsole (put_bytes c msg)
unfolding put_bytes
put_bytes-IsConsole c [] i = i
put_bytes-IsConsole c (byte ∷ msg) i =
    put_bytes-IsConsole (scroll (put_byte c byte)) msg
      (scroll-IsConsole (put_byte c byte) (put_byte-Edge c byte i))

-- On a screen of 25 rows and 80 columns, after any message: the cursor is on the screen, the screen has
-- its 2000 cells, and so the next byte that is written goes to one of them.
pub vga_print-IsConsole :
    (c : Console) (msg : List ℕ)
    → IsConsole c
    → IsConsole (vga_print c msg)
      × ((vga_print c msg).vga_row * vga_w + (vga_print c msg).vga_col
          < length (vga_print c msg).cells)
unfolding vga_print serial_print IsConsole
vga_print-IsConsole c msg i =
    let i' : IsConsole (put_bytes c msg) = put_bytes-IsConsole c msg i in
    (i', cursor_within (put_bytes c msg) i')
