-- ===== src/Prelude/Rows/Counts.antt =====
-- Counting the rows of a table, of a query and of a page of a query.
use Prim.Native.Nat.{ℕ, zero, suc, ◌+◌, ◌-◌, ◌≤◌}
use mathlib.Core.Path.{◌≡◌, refl}
use mathlib.Core.Bool.{Bool, true, false, not, ◌&&◌}
use mathlib.Core.List.{List, [], ◌∷◌, ◌++◌}
use native.Mathlib.Omega.{arith}
use conference_contact.Prelude.Tests.{leb, if◌then◌else◌}
use conference_contact.Prelude.Lists.{All, any, length, take, insert_by, sort_by}
use conference_contact.Prelude.Rows.{filter_where, count_where, update_where}

module _ {ℓ} {A : Type ℓ} (p : A → Bool) where
  count_where-insert_by :
      (key : A → ℕ) (x : A) (xs : List A)
      → count_where p (insert_by key x xs) ≡ count_where p (x ∷ xs)
  count_where-insert_by key x [] = refl
  count_where-insert_by key x (y ∷ ys) = ground (arith, count_where-insert_by key x ys)

  pub count_where-sort_by :
      (key : A → ℕ) (xs : List A) → count_where p (sort_by key xs) ≡ count_where p xs
  count_where-sort_by key [] = refl
  count_where-sort_by key (x ∷ xs) =
      ground (arith, count_where-sort_by key xs, count_where-insert_by key x (sort_by key xs))

  pub length-filter_where : (xs : List A) → length (filter_where p xs) ≡ count_where p xs
  length-filter_where [] = refl
  length-filter_where (x ∷ xs) = ground (arith, length-filter_where xs)

  pub count_where-append :
      (xs ys : List A) → count_where p (xs ++ ys) ≡ count_where p xs + count_where p ys
  count_where-append [] ys = omega arith
  count_where-append (x ∷ xs) ys = ground (arith, count_where-append xs ys)

  pub count_where-take-le : (n : ℕ) (xs : List A) → count_where p (take n xs) ≤ count_where p xs
  count_where-take-le zero xs = omega arith
  count_where-take-le (suc n) [] = omega arith
  count_where-take-le (suc n) (x ∷ xs) = ground (arith, count_where-take-le n xs)

  pub count_where-le-length : (xs : List A) → count_where p xs ≤ length xs
  count_where-le-length [] = omega arith
  count_where-le-length (x ∷ xs) = ground (arith, count_where-le-length xs)

  pub count_where-none : (xs : List A) → All (λ a. p a ≡ false) xs → count_where p xs ≡ 0
  count_where-none [] all = refl
  count_where-none (x ∷ xs) (here, all) = ground (arith, here, count_where-none xs all)

length-insert_by {ℓ} :
    {A : Type ℓ} (key : A → ℕ) (x : A) (xs : List A) → length (insert_by key x xs) ≡ suc (length xs)
length-insert_by key x [] = refl
length-insert_by key x (y ∷ ys) = ground (arith, length-insert_by key x ys)

pub length-sort_by {ℓ} :
    {A : Type ℓ} (key : A → ℕ) (xs : List A) → length (sort_by key xs) ≡ length xs
length-sort_by key [] = refl
length-sort_by key (x ∷ xs) =
    ground (arith, length-sort_by key xs, length-insert_by key x (sort_by key xs))

module _ {ℓ} {A : Type ℓ} (same : A → A → Bool) where
  -- A row that is the same as none of a list.
  abbrev pub outside : List A → A → Bool
  outside es x = not (any (λ e. same e x) es)

  -- Those outside are at most those behind the first `k`, when none of the first `k` is outside.
  pub count_where-outside :
      (es : List A) (k : ℕ) (xs : List A)
      → All (λ x. any (λ e. same e x) es ≡ true) (take k xs)
      → count_where (outside es) xs ≤ length xs - k
  count_where-outside es zero [] all = omega arith
  count_where-outside es zero (x ∷ xs) all = ground (arith, count_where-outside es 0 xs tt)
  count_where-outside es (suc k) [] all = omega arith
  count_where-outside es (suc k) (x ∷ xs) (here, all) =
      ground (arith, count_where-outside es k xs all)

  All-any-later :
      (e : A) (es xs : List A)
      → All (λ x. any (λ e. same e x) es ≡ true) xs
      → All (λ x. any (λ e. same e x) (e ∷ es) ≡ true) xs
  All-any-later e es [] all = tt
  All-any-later e es (x ∷ xs) (here, all) = (ground arith, All-any-later e es xs all)

  pub All-any_self :
      ((a : A) → same a a ≡ true) → (es : List A) → All (λ x. any (λ e. same e x) es ≡ true) es
  All-any_self reflexive [] = tt
  All-any_self reflexive (e ∷ es) =
      (ground (arith, reflexive e), All-any-later e es es (All-any_self reflexive es))

-- What holds of every row holds of the rows of a query, of a sorted one, of a page.
module _ {ℓ κ} {A : Type ℓ} (P : A → Type κ) where
  pub All-filter_where : (p : A → Bool) (xs : List A) → All P xs → All P (filter_where p xs)
  All-filter_where p [] all = tt
  All-filter_where p (x ∷ xs) (here, all) = go (p x) (All-filter_where p xs all)
    where
      go :
          (b : Bool)
          → All P (filter_where p xs)
          → All P (if b then x ∷ filter_where p xs else filter_where p xs)
      go true rest = (here, rest)
      go false rest = rest

  All-insert_by : (key : A → ℕ) (x : A) (xs : List A) → P x → All P xs → All P (insert_by key x xs)
  All-insert_by key x [] here all = (here, tt)
  All-insert_by key x (y ∷ ys) here (next, all) =
      go (leb (key y) (key x)) (All-insert_by key x ys here all)
    where
      go :
          (b : Bool)
          → All P (insert_by key x ys)
          → All P (if b then y ∷ insert_by key x ys else x ∷ y ∷ ys)
      go true rest = (next, rest)
      go false rest = (here, (next, all))

  pub All-sort_by : (key : A → ℕ) (xs : List A) → All P xs → All P (sort_by key xs)
  All-sort_by key [] all = tt
  All-sort_by key (x ∷ xs) (here, all) =
      All-insert_by key x (sort_by key xs) here (All-sort_by key xs all)

  pub All-take : (n : ℕ) (xs : List A) → All P xs → All P (take n xs)
  All-take zero xs all = tt
  All-take (suc n) [] all = tt
  All-take (suc n) (x ∷ xs) (here, all) = (here, All-take n xs all)

module _ {ℓ} {A : Type ℓ} (p q : A → Bool) (f : A → A) where
  -- An update that makes no row count that did not count before.
  pub count_where-update_where-le :
      ((a : A) → p (f a) ≡ true → p a ≡ true)
      → (xs : List A) → count_where p (update_where q f xs) ≤ count_where p xs
  count_where-update_where-le keep [] = omega arith
  count_where-update_where-le keep (x ∷ xs) =
      ground (arith, keep x, count_where-update_where-le keep xs)

  pub count_where-update_where :
      ((a : A) → p (f a) ≡ p a)
      → (xs : List A) → count_where p (update_where q f xs) ≡ count_where p xs
  count_where-update_where same [] = refl
  count_where-update_where same (x ∷ xs) = ground (arith, same x, count_where-update_where same xs)

  -- An update of every row that counts to one that does not.
  pub count_where-update_where-none :
      ((a : A) → p (f a) ≡ false)
      → ((a : A) → q a ≡ false → p a ≡ false)
      → (xs : List A) → count_where p (update_where q f xs) ≡ 0
  count_where-update_where-none gone all [] = refl
  count_where-update_where-none gone all (x ∷ xs) =
      ground (arith, gone x, all x, count_where-update_where-none gone all xs)

pub count_where-filter_where {ℓ} :
    {A : Type ℓ} (p q : A → Bool) (xs : List A)
    → count_where p (filter_where q xs) ≡ count_where (λ a. q a && p a) xs
count_where-filter_where p q [] = refl
count_where-filter_where p q (x ∷ xs) = ground (arith, count_where-filter_where p q xs)
