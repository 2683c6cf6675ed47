-- ===== src/Prelude/Rows/Latest.antt =====
-- What the newest matching row is, and how it changes when the filter is widened.
use Prim.Native.Nat.{ℕ, suc, ◌≤◌, ◌<◌}
use mathlib.Core.Path.{◌≡◌, refl, ap}
use mathlib.Core.Logic.{◌⊎◌, inl, inr}
use mathlib.Core.Bool.{Bool, true, false}
use mathlib.Core.Option.{Option, none, some}
use mathlib.Core.List.{List, [], ◌∷◌}
use native.Mathlib.Omega.{arith}
use conference_contact.Prelude.Tests.{Option-cases, Bool-cases, ltb}
use conference_contact.Prelude.Lists.{All}
use conference_contact.Prelude.Rows.{find_latest, newer, update_where, filter_where}
use conference_contact.Prelude.Rows.Updates.{updated, map_option}

-- The age of a row that may be missing, from 1; no row is older than any.
abbrev rank {ℓ} : {A : Type ℓ} → (A → ℕ) → Option A → ℕ
rank key none = 0
rank key (some a) = suc (key a)

-- A row that was found meets the filter.
pub find_latest_matches {ℓ} :
    {A : Type ℓ} (p : A → Bool) (key : A → ℕ) (xs : List A) {a : A}
    → find_latest p key xs ≡ some a
    → p a ≡ true
find_latest_matches p key [] h = cc
find_latest_matches p key (x ∷ xs) h = elim (Option-cases (find_latest p key xs)) [
  | inl e ↦ ground arith
  | inr (b, e) ↦ ground (arith, find_latest_matches p key xs e)
]

module _ {ℓ} {A : Type ℓ} (p q : A → Bool) (key : A → ℕ)
    (wider : (a : A) → p a ≡ true → q a ≡ true) where
  -- The newest row of a wider filter is at least as new.
  rank-latest-le : (xs : List A) → rank key (find_latest p key xs) ≤ rank key (find_latest q key xs)
  rank-latest-le [] = omega arith
  rank-latest-le (x ∷ xs) = ground (arith, rank-latest-le xs, wider x)

  -- A wider filter finds the same row, or one that the narrower filter leaves out.
  pub latest_wider :
      (xs : List A)
      → (find_latest q key xs ≡ find_latest p key xs)
        ⊎ ((b : A) × (find_latest q key xs ≡ some b) × (q b ≡ true) × (p b ≡ false))
  latest_wider [] = inl refl
  latest_wider (x ∷ xs) = ground (arith, rank-latest-le xs, latest_wider xs, wider x)

-- An update that leaves alone what the query looks at leaves the row that it finds.
pub find_latest-update_where {ℓ} :
    {A : Type ℓ} (p q : A → Bool) (key : A → ℕ) (f : A → A)
    → ((a : A) → key (f a) ≡ key a)
    → (xs : List A) → All (λ a. q a ≡ true → p (f a) ≡ p a) xs
    → find_latest p key (update_where q f xs) ≡ map_option (updated q f) (find_latest p key xs)
find_latest-update_where p q key f same_key [] same = refl
find_latest-update_where p q key f same_key (x ∷ xs) (here, same) =
    let ih = find_latest-update_where p q key f same_key xs same in
    elim (Option-cases (find_latest p key xs)) [
      | inl e ↦ ground (arith, ih, e, here)
      | inr (b, e) ↦ ground (arith, ih, e, here, same_key x, same_key b)
    ]

-- A table holds a row.
abbrev pub Holds : {A : Type 0} → A → List A → Type 0
Holds a [] = ⊥
Holds a (x ∷ xs) = (x ≡ a) ⊎ Holds a xs

pub Holds-filter_where :
    {A : Type 0} (q : A → Bool) (a : A) (xs : List A)
    → q a ≡ true
    → Holds a xs
    → Holds a (filter_where q xs)
Holds-filter_where q a [] kept h = absurd h
Holds-filter_where q a (x ∷ xs) kept (inl e) = rw (e, kept) (inl refl)
Holds-filter_where q a (x ∷ xs) kept (inr there) = elim (Bool-cases (q x)) [
  | inl k ↦ rw k (inr (Holds-filter_where q a xs kept there))
  | inr k ↦ rw k (Holds-filter_where q a xs kept there)
]

module _ {A : Type 0} (key : A → ℕ) (a : A) where
  abbrev pub IsOrOlder : A → Type 0
  IsOrOlder x = (x ≡ a) ⊎ (key x < key a)

  newer-IsOrOlder : (x y : A) → IsOrOlder x → IsOrOlder y → IsOrOlder (newer key x (some y))
  newer-IsOrOlder x y hx hy = elim (Bool-cases (ltb (key x) (key y))) [
    | inl h ↦ rw h hy
    | inr h ↦ rw h hx
  ]

  none_newer :
      (p : A → Bool) (xs : List A)
      → All (λ x. p x ≡ true → IsOrOlder x) xs
      → (find_latest p key xs ≡ none) ⊎ ((b : A) × (find_latest p key xs ≡ some b) × IsOrOlder b)
  none_newer p [] older = inl refl
  none_newer p (x ∷ xs) (here, older) = elim (Bool-cases (p x)) [
    | inr miss ↦ rw miss (none_newer p xs older)
    | inl hit ↦ elim (none_newer p xs older) [
      | inl e ↦ rw (hit, e) (inr (x, refl, here hit))
      | inr (b, e, hb) ↦ rw (hit, e) (inr (_, refl, newer-IsOrOlder x b (here hit) hb))
    ]
  ]

  newer_older : (x : A) → IsOrOlder x → newer key x (some a) ≡ a
  newer_older x (inl e) =
      rw e (elim (Bool-cases (ltb (key a) (key a))) [ inl h ↦ rw h refl | inr h ↦ rw h refl ])
  newer_older x (inr h) = ground (arith, h)

  newer_first : (y : A) → IsOrOlder y → newer key a (some y) ≡ a
  newer_first y (inl e) = elim (Bool-cases (ltb (key a) (key y))) [
    | inl h ↦ rw h e
    | inr h ↦ rw h refl
  ]
  newer_first y (inr h) = ground (arith, h)

  -- The newest of the rows that meet a filter is the one that the others are older than.
  pub find_latest_newest :
      (p : A → Bool) (xs : List A)
      → Holds a xs
      → p a ≡ true
      → All (λ x. p x ≡ true → IsOrOlder x) xs
      → find_latest p key xs ≡ some a
  find_latest_newest p [] h matches older = absurd h
  find_latest_newest p (x ∷ xs) (inl same) matches (here, older) = elim (none_newer p xs older) [
    | inl e ↦ rw (same, matches, e) refl
    | inr (b, e, hb) ↦ rw (same, matches, e) (ap some (newer_first b hb))
  ]
  find_latest_newest p (x ∷ xs) (inr there) matches (here, older) =
      let rest = find_latest_newest p xs there matches older in
      elim (Bool-cases (p x)) [
        | inr miss ↦ rw (miss, rest) refl
        | inl hit ↦ rw (hit, rest) (ap some (newer_older x (here hit)))
      ]
