-- ===== src/Prelude/Sets.antt =====
-- A set of strings as the list of its values in the order of their insertion, without repetition.
pub mod Laws
use mathlib.Core.Path.{◌≡◌, refl}
use mathlib.Core.Bool.{Bool, ◌||◌}
use mathlib.Core.List.{List, [], ◌∷◌, ◌++◌}
use Prim.Native.String.{String}
use text.Mathlib.Text.{◌==◌ as str_eq}
use native.Mathlib.Omega.{arith}
use conference_contact.Prelude.Tests.{if◌then◌else◌}
use conference_contact.Prelude.Lists.{any}

-- `set.has(value)`
abbrev pub has : List String → String → Bool
has set value = any (str_eq value) set

-- `set.add(value)`
abbrev pub set_add : String → List String → List String
set_add value set = if has set value then set else set ++ value ∷ []

abbrev pub set_add_all : List String → List String → List String
set_add_all [] set = set
set_add_all (v ∷ vs) set = set_add_all vs (set_add v set)

pub any-append {ℓ} :
    {A : Type ℓ} (p : A → Bool) (xs ys : List A) → any p (xs ++ ys) ≡ (any p xs || any p ys)
any-append p [] ys = refl
any-append p (x ∷ xs) ys = ground (arith, any-append p xs ys)
