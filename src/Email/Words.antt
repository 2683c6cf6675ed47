-- ===== src/Email/Words.antt =====
-- What the mails use of the language's strings.
pub mod Laws
use Prim.Native.Char.{Char, code}
use Prim.Native.String.{String, [], ◌∷◌}
use conference_contact.Prelude.{
  ℕ, zero, suc, ◌+◌, ◌-◌, ◌/◌, ◌%◌, Bool, ◌&&◌, ◌||◌, Option, none, some, List, ◌==◌, leb, ltb,
  if◌then◌else◌,
}
use conference_contact.Campaign.Text.{is_space_code, trim}

-- `s || undefined`
abbrev pub truthy : String → Option String
truthy [] = none
truthy (c ∷ s) = some (c ∷ s)

-- `split(/\s+/)[0]` of a text that does not start with a space
until_space : String → String
until_space [] = []
until_space (c ∷ s) = let rest = until_space s in if is_space_code (code c) then [] else c ∷ rest

unfoldable pub first_word : String → String
unfolding until_space
first_word s = until_space (trim s)

-- the characters that `encodeURIComponent` keeps
abbrev pub is_unreserved : ℕ → Bool
is_unreserved c =
    (leb b'A' c && leb c b'Z')
    || (leb b'a' c && leb c b'z')
    || (leb b'0' c && leb c b'9')
    || c == b'-'
    || c == b'_'
    || c == b'.'
    || c == b'!'
    || c == b'~'
    || c == b'*'
    || c == b'\''
    || c == b'('
    || c == b')'

-- the bytes of a code point in UTF-8
utf8 : ℕ → List ℕ
utf8 c =
    if ltb c 128
    then List.◌∷◌ c List.[]
    else if ltb c 2048
    then (List.◌∷◌ (192 + c / 64) (List.◌∷◌ (128 + c % 64) List.[]))
    else if ltb c 65536
    then (List.◌∷◌ (224 + c / 4096)
        (List.◌∷◌ (128 + c / 64 % 64) (List.◌∷◌ (128 + c % 64) List.[])))
    else (List.◌∷◌ (240 + c / 262144) (
        List.◌∷◌ (128 + c / 4096 % 64)
          (List.◌∷◌ (128 + c / 64 % 64) (List.◌∷◌ (128 + c % 64) List.[]))))

-- the character of a text at an index
nth_char : ℕ → String → Char
nth_char i [] = "0"
nth_char zero (c ∷ s) = c
nth_char (suc i) (c ∷ s) = nth_char i s

abbrev hex_digit : ℕ → Char
hex_digit n = nth_char n "0123456789ABCDEF"

percent_before : List ℕ → String → String
percent_before List.[] rest = rest
percent_before (List.◌∷◌ b bs) rest =
    "%" ∷ hex_digit (b / 16) ∷ hex_digit (b % 16) ∷ percent_before bs rest

unfoldable pub encode_uri_component : String → String
unfolding utf8 nth_char percent_before
encode_uri_component [] = []
encode_uri_component (c ∷ s) =
    let rest = encode_uri_component s in
    if is_unreserved (code c) then c ∷ rest else percent_before (utf8 (code c)) rest
