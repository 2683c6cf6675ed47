-- ===== src/Email/Escape/Laws.antt =====
-- What escaping keeps, and what it keeps out.
use Prim.Native.Char.{Char, code}
use Prim.Native.String.{String, [], ◌∷◌, ◌++◌}
use text.Mathlib.TextLemmas.{cons-append, nil-append, append_assoc}
use conference_contact.Prelude.{
  ℕ, zero, suc, true, false, Option, none, some, is_some, ◌==◌, ◌≡◌, refl, sym, ap, ◌∙◌, Bool-cases,
  Bool, ◌||◌, inl, inr, arith, if◌then◌else◌,
}
use text.Mathlib.TextEquality.{Char-path}
use conference_contact.Guards.Strings.{strip_prefix}
use conference_contact.Email.Escape.{replace_all, escape_html}

-- Concatenation by clauses, which computes on a literal before a variable.
abbrev pub append : String → String → String
append [] t = t
append (c ∷ s) t = c ∷ append s t

pub append_lem : (s t : String) → s ++ t ≡ append s t
append_lem [] t = nil-append t
append_lem (c ∷ s) t = cons-append c s t ∙ ap (λ r. c ∷ r) (append_lem s t)

replace_all-append :
    (c : ℕ) (r s t : String) → replace_all c r (s ++ t) ≡ replace_all c r s ++ replace_all c r t
unfolding replace_all
replace_all-append c r [] t = rw (nil-append t, nil-append) refl
replace_all-append c r (d ∷ s) t = elim (Bool-cases (code d == c)) [
  | inl here ↦ rw (cons-append, here, replace_all-append c r s t, append_assoc) refl
  | inr other ↦ rw (cons-append, other, replace_all-append c r s t, cons-append) refl
]

-- The entity that a character is written as.
abbrev pub escape_char : Char → String
escape_char c =
    if code c == b'&'
    then "&amp;"
    else if code c == b'<'
    then "&lt;"
    else if code c == b'>'
    then "&gt;"
    else if code c == b'"'
    then "&quot;"
    else if code c == b'\''
    then "&#39;"
    else c ∷ []

-- Every character is escaped in one of six ways.
pub escape_char-elim :
    (c : Char) (P : String → Type 0)
    → P "&amp;"
    → P "&lt;"
    → P "&gt;"
    → P "&quot;"
    → P "&#39;"
    → ((code c == b'<') ≡ false → (code c == b'>') ≡ false → (code c == b'"') ≡ false → P (c ∷ []))
    → P (escape_char c)
escape_char-elim c P amp lt gt quot apos other = elim (Bool-cases (code c == b'&')) [
  | inl h ↦ rw h amp
  | inr h1 ↦ elim (Bool-cases (code c == b'<')) [
    | inl h ↦ rw (h1, h) lt
    | inr h2 ↦ elim (Bool-cases (code c == b'>')) [
      | inl h ↦ rw (h1, h2, h) gt
      | inr h3 ↦ elim (Bool-cases (code c == b'"')) [
        | inl h ↦ rw (h1, h2, h3, h) quot
        | inr h4 ↦ elim (Bool-cases (code c == b'\'')) [
          | inl h ↦ rw (h1, h2, h3, h4, h) apos
          | inr h5 ↦ rw (h1, h2, h3, h4, h5) (other h2 h3 h4)
        ]
      ]
    ]
  ]
]

-- The five replacements, one after the other, write each character as its entity.
pub escape_html-cons :
    (c : Char) (s : String) → escape_html (c ∷ s) ≡ escape_char c ++ escape_html s
unfolding escape_html replace_all
escape_html-cons c s = elim (Bool-cases (code c == b'&')) [
  | inl h ↦ simp (h, replace_all-append)
  | inr amp ↦ elim (Bool-cases (code c == b'<')) [
    | inl h ↦ simp (amp, h, replace_all-append)
    | inr lt ↦ elim (Bool-cases (code c == b'>')) [
      | inl h ↦ simp (amp, lt, h, replace_all-append)
      | inr gt ↦ elim (Bool-cases (code c == b'"')) [
        | inl h ↦ simp (amp, lt, gt, h, replace_all-append)
        | inr quot ↦ elim (Bool-cases (code c == b'\'')) [
          | inl h ↦ simp (amp, lt, gt, quot, h)
          | inr apos ↦ simp (amp, lt, gt, quot, apos, cons-append, nil-append)
        ]
      ]
    ]
  ]
]

-- The character that a reference `&…;` of a document stands for, and how long the rest of it is.
unfoldable pub reference : String → Option (Char × ℕ)
unfolding strip_prefix
reference s =
    if is_some (strip_prefix "amp;" s)
    then some ("&", 4)
    else if is_some (strip_prefix "lt;" s)
    then some ("<", 3)
    else if is_some (strip_prefix "gt;" s)
    then some (">", 3)
    else if is_some (strip_prefix "quot;" s)
    then some ("\"", 5)
    else if is_some (strip_prefix "#39;" s)
    then some ("'", 4)
    else none

-- Where a text stands in a document: between tags, or in the value of an attribute, in either quotes.
pub data Place : Type 0 where
  between_tags in_double_quotes in_single_quotes : Place

-- The characters at which a text ends in its place: the start of a tag (or what could be read as the
-- end of one), and the closing quote.
abbrev pub ends_text : Place → ℕ → Bool
ends_text between_tags c = c == b'<' || c == b'>'
ends_text in_double_quotes c = c == b'"'
ends_text in_single_quotes c = c == b'\''

abbrev put_char : Char → String × String → String × String
put_char c (shown, rest) = (c ∷ shown, rest)

-- What a reader of a document shows of a text, and where the reading stops: at the first character
-- that ends the text, or at the end of the document. The number is that of the characters that are
-- left of a reference.
unfoldable pub read_text : Place → ℕ → String → String × String
unfolding reference
read_text place left [] = ("", "")
read_text place (suc left) (c ∷ s) = read_text place left s
read_text place zero (c ∷ s) =
    if ends_text place (code c)
    then ("", c ∷ s)
    else if code c == b'&'
    then elim (reference s) [
      | none ↦ put_char c (read_text place 0 s)
      | some (d, left) ↦ put_char d (read_text place left s)
    ]
    else put_char c (read_text place 0 s)

same_char : (c d : Char) → (code c == code d) ≡ true → c ≡ d
same_char c d h = Char-path c d (ground (arith, h))

-- Each reference is read as its character, in every place.
read_text-references :
    (place : Place) (s : String)
    → let shown = read_text place 0 s in
      (read_text place 0 ("&amp;" ++ s) ≡ put_char "&" shown)
      × (read_text place 0 ("&lt;" ++ s) ≡ put_char "<" shown)
      × (read_text place 0 ("&gt;" ++ s) ≡ put_char ">" shown)
      × (read_text place 0 ("&quot;" ++ s) ≡ put_char "\"" shown)
      × (read_text place 0 ("&#39;" ++ s) ≡ put_char "'" shown)
unfolding read_text
read_text-references between_tags s = (
  rw (append_lem) refl,
  rw (append_lem) refl,
  rw (append_lem) refl,
  rw (append_lem) refl,
  rw (append_lem) refl,
)
read_text-references in_double_quotes s = (
  rw (append_lem) refl,
  rw (append_lem) refl,
  rw (append_lem) refl,
  rw (append_lem) refl,
  rw (append_lem) refl,
)
read_text-references in_single_quotes s = (
  rw (append_lem) refl,
  rw (append_lem) refl,
  rw (append_lem) refl,
  rw (append_lem) refl,
  rw (append_lem) refl,
)

plain_in_place :
    (place : Place) (c : ℕ)
    → (c == b'<') ≡ false
    → (c == b'>') ≡ false
    → (c == b'"') ≡ false
    → (c == b'\'') ≡ false
    → ends_text place c ≡ false
plain_in_place between_tags c lt gt quot apos = ground (arith, lt, gt)
plain_in_place in_double_quotes c lt gt quot apos = quot
plain_in_place in_single_quotes c lt gt quot apos = apos

read_text-escape_char :
    (place : Place) (c : Char) (s : String)
    → read_text place 0 (escape_char c ++ s) ≡ put_char c (read_text place 0 s)
unfolding read_text
read_text-escape_char place c s =
    let shown = read_text place 0 s in
    let (amp_read, lt_read, gt_read, quot_read, apos_read) = read_text-references place s in
    let as_char : (d : Char) → (code c == code d) ≡ true → put_char d shown ≡ put_char c shown =
      λ d h. ap (λ x. put_char x shown) (sym (same_char c d h)) in
    elim (Bool-cases (code c == b'&')) [
      | inl h ↦ rw h (amp_read ∙ as_char "&" h)
      | inr amp ↦ elim (Bool-cases (code c == b'<')) [
        | inl h ↦ rw (amp, h) (lt_read ∙ as_char "<" h)
        | inr lt ↦ elim (Bool-cases (code c == b'>')) [
          | inl h ↦ rw (amp, lt, h) (gt_read ∙ as_char ">" h)
          | inr gt ↦ elim (Bool-cases (code c == b'"')) [
            | inl h ↦ rw (amp, lt, gt, h) (quot_read ∙ as_char "\"" h)
            | inr quot ↦ elim (Bool-cases (code c == b'\'')) [
              | inl h ↦ rw (amp, lt, gt, quot, h) (apos_read ∙ as_char "'" h)
              | inr apos ↦
                  (let plain = plain_in_place place (code c) lt gt quot apos in
                    rw (amp, lt, gt, quot, apos, append_lem, plain, amp) refl)
            ]
          ]
        ]
      ]
    ]

-- A reader of a document reads an escaped text, wherever it stands, between tags or in an attribute
-- in either quotes, as the text that it was, and goes on with the document behind it at the character
-- that ends the text.
pub read_text-escape_html :
    (place : Place) (s : String) (stop : Char) (rest : String)
    → ends_text place (code stop) ≡ true
    → read_text place 0 (escape_html s ++ stop ∷ rest) ≡ (s, stop ∷ rest)
unfolding escape_html replace_all read_text
read_text-escape_html place [] stop rest end = rw (nil-append, end) refl
read_text-escape_html place (c ∷ s) stop rest end =
    rw
      (
        escape_html-cons c s,
        append_assoc,
        read_text-escape_char place c (escape_html s ++ stop ∷ rest),
      )
      (ap (put_char c) (read_text-escape_html place s stop rest end))
