-- ===== src/Numerals.antt =====
-- Decimal numerals: `String(n)` and `parseInt(s, 10)`, as the credits metadata uses them.
pub mod RoundTrip
use Prim.Native.Char.{Char, code}
use Prim.Native.String.{String, [], ◌∷◌}
use conference_contact.Prelude.{
  ℕ, zero, suc, ◌+◌, ◌-◌, ◌*◌, ◌/◌, ◌%◌, Bool, true, false, ◌&&◌, ◌||◌, Option, none, some, leb,
  ltb, ◌==◌, if◌then◌else◌,
}

-- The digit `d`, as a character.
abbrev digit : ℕ → Char
digit zero = "0"
digit (suc zero) = "1"
digit (suc (suc zero)) = "2"
digit (suc (suc (suc zero))) = "3"
digit (suc (suc (suc (suc zero)))) = "4"
digit (suc (suc (suc (suc (suc zero))))) = "5"
digit (suc (suc (suc (suc (suc (suc zero)))))) = "6"
digit (suc (suc (suc (suc (suc (suc (suc zero))))))) = "7"
digit (suc (suc (suc (suc (suc (suc (suc (suc zero)))))))) = "8"
digit _ = "9"

-- The digits of `n` before `rest`; the fuel is `n`.
print_before : ℕ → ℕ → String → String
print_before zero n rest = digit (n % 10) ∷ rest
print_before (suc fuel) n rest =
    let more = print_before fuel (n / 10) (digit (n % 10) ∷ rest) in
    if ltb n 10 then digit n ∷ rest else more

unfoldable pub print_int : ℕ → String
unfolding print_before
print_int n = print_before n n []

abbrev is_digit : ℕ → Bool
is_digit c = leb b'0' c && leb c b'9'

abbrev is_space : ℕ → Bool
is_space c = (leb 9 c && leb c 13) || c == 32

-- The digits up to the first other character.
parse_digits : ℕ → String → ℕ
parse_digits n [] = n
parse_digits n (c ∷ s) =
    let more = parse_digits (n * 10 + (code c - b'0')) s in if is_digit (code c) then more else n

-- At least one digit must follow the sign.
parse_unsigned : String → Option ℕ
parse_unsigned [] = none
parse_unsigned (c ∷ s) =
    let value = parse_digits 0 (c ∷ s) in if is_digit (code c) then some value else none

-- `none` stands for NaN and for a number below zero or -0, which the caller treats alike.
unfoldable pub parse_int : String → Option ℕ
unfolding parse_unsigned parse_digits
parse_int [] = none
parse_int (c ∷ s) =
    let rest = parse_int s in
    if is_space (code c)
    then rest
    else if code c == b'+'
    then parse_unsigned s
    else parse_unsigned (c ∷ s)
