-- ===== src/Tests/Screens.antt =====
-- src/lib.rs: the theorems on a fresh screen and a short line with a backspace in it.
use delta_os.Base.{
  ℕ, ◌+◌, ◌*◌, ◌<◌, ◌≡◌, refl, List, [], ◌∷◌, ◌++◌, none, some, length, replicate, arith,
}
use delta_os.Console.{Console, vga_w, vga_print}
use delta_os.Console.Line.{Editor, begin_line, read_line, drop_last, edit, edited, read_line-edited}
use delta_os.Console.Screen.{IsConsole, vga_print-IsConsole}

abbrev fresh : Console
fresh = record { cells = replicate 2000 0; vga_row = 24; vga_col = 79; vga_color = 15; serial = [] }

fresh-IsConsole : IsConsole fresh
unfolding IsConsole
fresh-IsConsole = (refl, omega arith, omega arith)

vga_print-IsConsole_example :
    IsConsole (vga_print fresh (72 ∷ 10 ∷ []))
    × ((vga_print fresh (72 ∷ 10 ∷ [])).vga_row * vga_w + (vga_print fresh (72 ∷ 10 ∷ [])).vga_col
        < length (vga_print fresh (72 ∷ 10 ∷ [])).cells)
vga_print-IsConsole_example = vga_print-IsConsole fresh (72 ∷ 10 ∷ []) fresh-IsConsole

abbrev blank : Editor
blank = record { input_buf = replicate 256 0; input_pos = 0; console = fresh }

-- "px", a backspace, "s".
abbrev typed : List ℕ
typed = 112 ∷ 120 ∷ 8 ∷ 115 ∷ []

read_line-edited_example :
    (read_line (begin_line blank) typed ≡ none)
    × ((e' : Editor) × (length e'.input_buf ≡ 256)
        × (read_line (begin_line blank) (typed ++ 10 ∷ 107 ∷ [])
            ≡ some (edited [] typed, e', 107 ∷ [])))
read_line-edited_example =
    read_line-edited blank typed (107 ∷ []) refl
      (omega arith, (omega arith, (omega arith, (omega arith, tt))))

edited-typed : edited [] typed ≡ 112 ∷ 115 ∷ []
unfolding edited edit drop_last
edited-typed = refl
