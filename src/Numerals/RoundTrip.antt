-- ===== src/Numerals/RoundTrip.antt =====
-- A number printed and read back, as a test.
use conference_contact.Prelude.{◌≡◌, refl, some}
use conference_contact.Numerals.{print_int, parse_int}

print_parse : parse_int (print_int 5000) ≡ some 5000
unfolding print_int parse_int
print_parse = refl
