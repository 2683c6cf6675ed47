-- ===== src/Prelude/Sets/Laws.antt =====
-- What a set of strings has after values are added, and what a query by a set finds.
use mathlib.Core.Path.{◌≡◌, refl, sym, ap, ◌∙◌}
use mathlib.Core.Logic.{inl, inr}
use mathlib.Core.Bool.{Bool, true, ◌&&◌, ◌||◌}
use mathlib.Core.List.{List, [], ◌∷◌}
use Prim.Native.String.{String}
use text.Mathlib.Text.{◌==◌ as str_eq}
use text.Mathlib.TextEquality.{eq_iff}
use native.Mathlib.Omega.{arith}
use conference_contact.Prelude.Tests.{ltb, Bool-cases}
use conference_contact.Prelude.Rows.{filter_where, count_where}
use conference_contact.Prelude.Sets.{has, set_add, set_add_all, any-append}

pub str_eq-path : (s t : String) → str_eq s t ≡ true → s ≡ t
str_eq-path s t h = (eq_iff s t).0 h

pub str_eq_sym : (s t : String) → str_eq s t ≡ str_eq t s
str_eq_sym s t = elim (Bool-cases (str_eq s t)) [
  | inl e ↦ rw (str_eq-path s t e) refl
  | inr e ↦ elim (Bool-cases (str_eq t s)) [
    | inl k ↦ rw (str_eq-path t s k) refl
    | inr k ↦ e ∙ sym k
  ]
]

pub has-set_add : (v x : String) (s : List String) → has (set_add v s) x ≡ (has s x || str_eq x v)
has-set_add v x s = elim (Bool-cases (has s v)) [
  | inl there ↦ elim (Bool-cases (str_eq x v)) [
    | inl e ↦ (let same = str_eq-path x v e in rw (there, same, there) refl)
    | inr e ↦ ground (arith, there, e)
  ]
  | inr missing ↦ rw missing (ground (arith, any-append (str_eq x) s (v ∷ [])))
]

pub has-set_add_all :
    (vs : List String) (x : String) (s : List String)
    → has (set_add_all vs s) x ≡ (has s x || has vs x)
has-set_add_all [] x s = ground arith
has-set_add_all (v ∷ vs) x s = ground (arith, has-set_add_all vs x (set_add v s), has-set_add v x s)

pub has-filter_where :
    (p : String → Bool) (xs : List String) (x : String)
    → has (filter_where p xs) x ≡ (has xs x && p x)
has-filter_where p [] x = refl
has-filter_where p (y ∷ ys) x = elim (Bool-cases (str_eq x y)) [
  | inl e ↦ (let same = ap p (str_eq-path x y e) in ground (arith, same, has-filter_where p ys x))
  | inr e ↦ ground (arith, e, has-filter_where p ys x)
]

-- A list that does not have a value does not count it.
pub has-count_where :
    (a : String) (set : List String) → has set a ≡ ltb 0 (count_where (str_eq a) set)
has-count_where a [] = refl
has-count_where a (e ∷ es) = ground (arith, has-count_where a es)
