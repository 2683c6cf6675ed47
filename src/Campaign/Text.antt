-- ===== src/Campaign/Text.antt =====
-- `trim` and `length` of the language's strings.
pub mod Laws
use Prim.Native.Char.{Char, code}
use Prim.Native.String.{String, [], ◌∷◌}
use conference_contact.Prelude.{ℕ, ◌+◌, Bool, ◌&&◌, ◌||◌, ◌==◌, leb, ltb, if◌then◌else◌}

-- WhiteSpace and LineTerminator
abbrev pub is_space_code : ℕ → Bool
is_space_code c =
    leb 9 c && leb c 13
    || c == 32
    || c == 160
    || c == 5760
    || leb 8192 c && leb c 8202
    || c == 8232
    || c == 8233
    || c == 8239
    || c == 8287
    || c == 12288
    || c == 65279

trim_start : String → String
trim_start [] = []
trim_start (c ∷ s) = let rest = trim_start s in if is_space_code (code c) then rest else c ∷ s

put_end : Char → String → String
put_end c [] = if is_space_code (code c) then [] else c ∷ []
put_end c (d ∷ r) = c ∷ d ∷ r

-- A character is dropped when it and all behind it are spaces.
trim_end : String → String
unfolding put_end
trim_end [] = []
trim_end (c ∷ s) = put_end c (trim_end s)

unfoldable pub trim : String → String
unfolding trim_start trim_end
trim s = trim_end (trim_start s)

-- in units of UTF-16
unfoldable pub js_length : String → ℕ
js_length [] = 0
js_length (c ∷ s) = (if ltb (code c) 65536 then 1 else 2) + js_length s
