-- ===== src/Prelude/Rows/Updates.antt =====
-- What a query finds after an update, and what an update leaves alone.
use mathlib.Core.Path.{◌≡◌, refl, subst}
use mathlib.Core.Logic.{inl, inr}
use mathlib.Core.Bool.{Bool, true, false}
use mathlib.Core.Option.{Option, none, some}
use mathlib.Core.List.{List, [], ◌∷◌, ◌++◌}
use native.Mathlib.Omega.{arith}
use conference_contact.Prelude.Tests.{Bool-cases, if◌then◌else◌}
use conference_contact.Prelude.Lists.{All}
use conference_contact.Prelude.Rows.{find_first, update_where}

module _ {ℓ} {A : Type ℓ} where
  -- What `updateMany` makes of one row.
  abbrev pub updated : (A → Bool) → (A → A) → A → A
  updated q f a = if q a then f a else a

  abbrev pub map_option : (A → A) → Option A → Option A
  map_option f none = none
  map_option f (some a) = some (f a)

  pub find_first_matches :
      (p : A → Bool) (xs : List A) {a : A} → find_first p xs ≡ some a → p a ≡ true
  find_first_matches p [] h = cc
  find_first_matches p (x ∷ xs) {a} h = ground (arith, find_first_matches p xs {a = a})

  -- An update that leaves alone what the query looks at leaves the row that it finds.
  pub find_first-update_where :
      (p q : A → Bool) (f : A → A)
      → ((a : A) → p (f a) ≡ p a)
      → (xs : List A)
      → find_first p (update_where q f xs) ≡ map_option (updated q f) (find_first p xs)
  find_first-update_where p q f same [] = refl
  find_first-update_where p q f same (x ∷ xs) =
      ground (arith, same x, find_first-update_where p q f same xs)

  pub find_first-append :
      (p : A → Bool) (xs : List A) (a : A)
      → find_first p xs ≡ none
      → find_first p (xs ++ a ∷ []) ≡ (if p a then some a else none)
  find_first-append p [] a h = refl
  find_first-append p (x ∷ xs) a h = ground (arith, find_first-append p xs a)

  pub find_first-append_found :
      (p : A → Bool) (xs ys : List A) {a : A}
      → find_first p xs ≡ some a
      → find_first p (xs ++ ys) ≡ some a
  find_first-append_found p [] ys h = cc
  find_first-append_found p (x ∷ xs) ys {a} h =
      ground (arith, find_first-append_found p xs ys {a = a})

  -- A query that a row of the table meets finds a row.
  pub find_first_exists :
      (p q : A → Bool) (xs : List A) {a : A}
      → find_first p xs ≡ some a
      → q a ≡ true
      → (b : A) × (find_first q xs ≡ some b)
  find_first_exists p q [] h k = cc
  find_first_exists p q (x ∷ xs) {a} h k = elim (Bool-cases (q x)) [
    | inl here ↦ (x, ground arith)
    | inr there ↦ elim (Bool-cases (p x)) [
      | inl now ↦ ground arith
      | inr later ↦
          (let (b, e) = find_first_exists p q xs {a = a} (ground arith) k in (b, ground (arith, e)))
    ]
  ]

  pub find_first-none :
      (p : A → Bool) (xs : List A) → All (λ a. p a ≡ false) xs → find_first p xs ≡ none
  find_first-none p [] all = refl
  find_first-none p (x ∷ xs) (here, all) = ground (arith, here, find_first-none p xs all)

  pub None-find_first :
      (p : A → Bool) (xs : List A) → find_first p xs ≡ none → All (λ a. p a ≡ false) xs
  None-find_first p [] h = tt
  None-find_first p (x ∷ xs) h = (ground arith, None-find_first p xs (ground arith))

  -- An update that keeps a predicate row by row keeps it of the table.
  pub All-update_where {κ} :
      (P : A → Type κ) (q : A → Bool) (f : A → A)
      → ((a : A) → P a → P (f a))
      → (xs : List A) → All P xs
      → All P (update_where q f xs)
  All-update_where P q f keep [] h = tt
  All-update_where P q f keep (x ∷ xs) (h, hs) = (one (q x), All-update_where P q f keep xs hs)
    where
      one : (b : Bool) → P (if b then f x else x)
      one true = keep x h
      one false = h

  pub All-append {κ} :
      (P : A → Type κ) (xs : List A) (a : A) → All P xs → P a → All P (xs ++ a ∷ [])
  All-append P [] a h p = (p, tt)
  All-append P (x ∷ xs) a (h, hs) p = (h, All-append P xs a hs p)

  pub All-find_first {κ} :
      (P : A → Type κ) (q : A → Bool) (xs : List A) {a : A}
      → All P xs
      → find_first q xs ≡ some a
      → P a
  All-find_first P q [] h e = cc
  All-find_first P q (x ∷ xs) {a} (h, hs) e = elim (Bool-cases (q x)) [
    | inl here ↦ (let same : x ≡ a = ground arith in subst P same h)
    | inr there ↦ All-find_first P q xs hs (ground arith)
  ]
