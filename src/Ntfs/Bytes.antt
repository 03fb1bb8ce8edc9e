-- ===== src/Ntfs/Bytes.antt =====
-- src/fs/ntfs.rs: reads of bytes, `from_le_bytes`, and `char::from_u32` on 16-bit units.
use delta_os.Base.{
  ℕ, zero, suc, ◌+◌, ◌*◌, Bool, ◌&&◌, ◌||◌, List, [], ◌∷◌, if◌then◌else◌, ltb, leb, get_or, take,
  drop,
}

-- `data[i]`; the code checks that it is inside first.
abbrev pub byte : List ℕ → ℕ → ℕ
byte bytes i = get_or bytes i 0

unfoldable pub from_le_bytes : List ℕ → ℕ
from_le_bytes [] = 0
from_le_bytes (b ∷ bytes) = b + 256 * from_le_bytes bytes

-- The word of `count` bytes at an offset.
unfoldable pub le_word : List ℕ → ℕ → ℕ → ℕ
unfolding from_le_bytes
le_word bytes offset count = from_le_bytes (take count (drop offset bytes))

-- Half of a surrogate pair is no character.
abbrev pub is_char : ℕ → Bool
is_char unit = ltb unit 0xD800 || leb 0xE000 unit

-- `count` units at an offset, those left out that are no characters or lie past the end.
unfoldable pub chars_at : List ℕ → ℕ → ℕ → ℕ → List ℕ
chars_at bytes limit offset zero = []
chars_at bytes limit offset (suc count) =
    let rest = chars_at bytes limit (offset + 2) count in
    let unit : ℕ = le_word bytes offset 2 in
    if ltb (offset + 1) limit && is_char unit then unit ∷ rest else rest
