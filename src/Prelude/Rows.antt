-- ===== src/Prelude/Rows.antt =====
-- A table is the list of its rows. The order of the rows is not fixed by any invariant, so a
-- query without an `orderBy` may find any of the rows that match.
pub mod Counts
pub mod Latest
pub mod Updates
use Prim.Native.Nat.{ℕ, suc, ◌+◌, ◌≤◌}
use mathlib.Core.Path.{◌≡◌, refl}
use mathlib.Core.Bool.{Bool, true, false}
use mathlib.Core.Option.{Option, none, some}
use mathlib.Core.List.{List, [], ◌∷◌, ◌++◌}
use native.Mathlib.Omega.{arith}
use conference_contact.Prelude.Tests.{ltb, leb, if◌then◌else◌, Bool-cases, Option-cases}
use conference_contact.Prelude.Lists.{All, any, length}

module _ {ℓ} {A : Type ℓ} where
  -- `findUnique`, and `findFirst` with no `orderBy`
  abbrev pub find_first : (A → Bool) → List A → Option A
  find_first p [] = none
  find_first p (x ∷ xs) = if p x then some x else find_first p xs

  -- `updateMany`, and `update` by a unique key
  abbrev pub update_where : (A → Bool) → (A → A) → List A → List A
  update_where p f [] = []
  update_where p f (x ∷ xs) = (if p x then f x else x) ∷ update_where p f xs

  abbrev pub filter_where : (A → Bool) → List A → List A
  filter_where p [] = []
  filter_where p (x ∷ xs) = let rest = filter_where p xs in if p x then x ∷ rest else rest

  -- `count`
  abbrev pub count_where : (A → Bool) → List A → ℕ
  count_where p [] = 0
  count_where p (x ∷ xs) = let rest = count_where p xs in if p x then suc rest else rest

  -- The newer of a row and the newest row of the rest.
  abbrev pub newer : (A → ℕ) → A → Option A → A
  newer key x none = x
  newer key x (some y) = if ltb (key x) (key y) then y else x

  -- `findFirst` with `orderBy: { createdAt: 'desc' }`
  abbrev pub find_latest : (A → Bool) → (A → ℕ) → List A → Option A
  find_latest p key [] = none
  find_latest p key (x ∷ xs) =
      let rest = find_latest p key xs in if p x then some (newer key x rest) else rest
