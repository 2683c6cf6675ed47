-- ===== src/Email/Words/Laws.antt =====
-- A text that is part of a link or of a greeting opens and closes no tag.
use Prim.Native.Char.{code}
use Prim.Native.String.{String}
use conference_contact.Prelude.{
  ℕ, zero, suc, ◌/◌, ◌%◌, true, false, List, [], ◌∷◌, ◌≡◌, refl, Bool-cases, inl, inr, arith,
}
use conference_contact.Email.Markup.{is_markup, markup}
use conference_contact.Email.Words.{
  is_unreserved, utf8, nth_char, hex_digit, percent_before, encode_uri_component,
}

nth_char-markup : (i : ℕ) (s : String) → markup s ≡ [] → is_markup (code (nth_char i s)) ≡ false
unfolding nth_char markup
nth_char-markup i String.[] h = refl
nth_char-markup zero (String.◌∷◌ c s) h = ground (arith, h)
nth_char-markup (suc i) (String.◌∷◌ c s) h = nth_char-markup i s (ground (arith, h))

hex_digit-markup : (n : ℕ) → is_markup (code (hex_digit n)) ≡ false
unfolding markup
hex_digit-markup n = nth_char-markup n "0123456789ABCDEF" refl

markup-percent_before :
    (bs : List ℕ) (rest : String) → markup rest ≡ [] → markup (percent_before bs rest) ≡ []
unfolding markup percent_before
markup-percent_before [] rest h = h
markup-percent_before (b ∷ bs) rest h =
    rw (hex_digit-markup (b / 16), hex_digit-markup (b % 16)) (markup-percent_before bs rest h)

unreserved_lem : (c : ℕ) → is_unreserved c ≡ true → is_markup c ≡ false
unreserved_lem c h = ground (arith, h)

pub markup-encode_uri_component : (s : String) → markup (encode_uri_component s) ≡ []
unfolding markup encode_uri_component
markup-encode_uri_component String.[] = refl
markup-encode_uri_component (String.◌∷◌ c s) = elim (Bool-cases (is_unreserved (code c))) [
  | inl kept ↦ rw (kept, unreserved_lem (code c) kept) (markup-encode_uri_component s)
  | inr other ↦ rw other (markup-percent_before (utf8 (code c)) _ (markup-encode_uri_component s))
]
