-- ===== src/Email/Markup.antt =====
-- The tags of a document: what a text in a mail can and cannot add to them.
use Prim.Native.Char.{Char, code}
use Prim.Native.String.{String, ◌++◌ as ◌++ˢ◌}
use text.Mathlib.TextLemmas.{cons-append, nil-append}
use conference_contact.Prelude.{
  ℕ, Bool, ◌||◌, List, [], ◌∷◌, ◌++◌, ◌==◌, ◌≡◌, refl, Bool-cases, inl, inr, if◌then◌else◌,
}
use conference_contact.Email.Escape.{replace_all, escape_html}
use conference_contact.Email.Escape.Laws.{escape_char, escape_char-elim, escape_html-cons}

-- The characters of a document that open and close tags and their attributes.
abbrev pub is_markup : ℕ → Bool
is_markup c = c == b'<' || (c == b'>' || c == b'"')

unfoldable pub markup : String → List ℕ
markup String.[] = []
markup (String.◌∷◌ c s) = let rest = markup s in if is_markup (code c) then code c ∷ rest else rest

pub markup-append : (s t : String) → markup (s ++ˢ t) ≡ markup s ++ markup t
unfolding markup
markup-append String.[] t = rw (nil-append t) refl
markup-append (String.◌∷◌ c s) t = elim (Bool-cases (is_markup (code c))) [
  | inl here ↦ rw (cons-append, here, markup-append s t) refl
  | inr other ↦ rw (cons-append, other, markup-append s t) refl
]

markup-escape_char : (c : Char) → markup (escape_char c) ≡ []
unfolding markup
markup-escape_char c =
    escape_char-elim c (λ s. markup s ≡ []) refl refl refl refl refl
      (λ lt gt quot. rw (lt, gt, quot) refl)

-- An escaped text opens and closes no tag and no attribute.
pub markup-escape_html : (s : String) → markup (escape_html s) ≡ []
unfolding escape_html replace_all markup
markup-escape_html String.[] = refl
markup-escape_html (String.◌∷◌ c s) =
    rw
      (
        escape_html-cons c s,
        markup-append (escape_char c) (escape_html s),
        markup-escape_char c,
        markup-escape_html s,
      )
      refl
