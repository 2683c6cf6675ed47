-- ===== src/Email/Escape.antt =====
-- `escapeHtml` and `sanitizeForSubject` of src/email/email-template.util.ts.
pub mod Laws
use Prim.Native.Char.{Char, code}
use Prim.Native.String.{String, [], ◌∷◌, ◌++◌}
use conference_contact.Prelude.{ℕ, Bool, ◌||◌, ◌==◌, ltb, if◌then◌else◌}
use conference_contact.Campaign.Text.{trim}

-- `replace(/c/g, r)` for one character
unfoldable pub replace_all : ℕ → String → String → String
replace_all c r [] = []
replace_all c r (d ∷ s) =
    let rest = replace_all c r s in if code d == c then r ++ rest else d ∷ rest

unfoldable pub escape_html : String → String
escape_html value =
    let s1 = replace_all b'&' "&amp;" value in
    let s2 = replace_all b'<' "&lt;" s1 in
    let s3 = replace_all b'>' "&gt;" s2 in
    let s4 = replace_all b'"' "&quot;" s3 in replace_all b'\'' "&#39;" s4

abbrev pub is_control : ℕ → Bool
is_control c = ltb c 32 || c == 127

unfoldable pub blank_controls : String → String
blank_controls [] = []
blank_controls (c ∷ s) =
    let rest = blank_controls s in if is_control (code c) then " " ∷ rest else c ∷ rest

unfoldable pub sanitize_for_subject : String → String
unfolding blank_controls
sanitize_for_subject value = trim (blank_controls value)
