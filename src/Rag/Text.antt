-- ===== src/Rag/Text.antt =====
-- Strings as lists of Unicode scalar values, with what src/rag/chunker.rs uses of the standard
-- library: lengths in bytes of UTF-8, white space, `trim`.
use flash_store.Prelude.{
  ℕ, ◌+◌, ◌-◌, Bool, ◌||◌, ◌&&◌, List, [], ◌∷◌, take, drop, ltb, leb, ◌==◌, if◌then◌else◌,
}
use mathlib.Core.List.{reverse}

abbrev pub Text : Type 0
Text = List ℕ

-- `char::len_utf8`
unfoldable pub len_utf8 : ℕ → ℕ
len_utf8 c = if ltb c 0x80 then 1 else if ltb c 0x800 then 2 else if ltb c 0x10000 then 3 else 4

-- `str::len`
unfoldable pub byte_len : Text → ℕ
byte_len [] = 0
byte_len (c ∷ cs) = len_utf8 c + byte_len cs

-- The byte offset of the character at a position, as `char_indices` gives it; at the end that is
-- the length.
abbrev pub byte_index : Text → ℕ → ℕ
byte_index text i = byte_len (take i text)

-- The characters from one position up to another.
abbrev pub slice : Text → ℕ → ℕ → Text
slice text i j = take (j - i) (drop i text)

-- `char::is_whitespace`: the characters with the property White_Space.
unfoldable pub is_whitespace : ℕ → Bool
is_whitespace c =
    (leb 0x9 c && leb c 0xD)
    || (c == 0x20)
    || (c == 0x85)
    || (c == 0xA0)
    || (c == 0x1680)
    || (leb 0x2000 c && leb c 0x200A)
    || (c == 0x2028)
    || (c == 0x2029)
    || (c == 0x202F)
    || (c == 0x205F)
    || (c == 0x3000)

unfoldable pub trim_start : Text → Text
trim_start [] = []
trim_start (c ∷ cs) = let rest = trim_start cs in if is_whitespace c then rest else c ∷ cs

unfoldable pub trim : Text → Text
trim cs = reverse (trim_start (reverse (trim_start cs)))
