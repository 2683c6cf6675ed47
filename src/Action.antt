-- ===== src/Action.antt =====
-- A request handler or a job: it reads and writes the database, and may throw. What was written
-- before a throw stays written, so the state comes back beside the error too.
pub mod Keeps
use conference_contact.Prelude.{
  ℕ, String, ◌≡◌, refl, ◌⊎◌, inl, inr, ◌==◌, find_first, true, false, Bool, Option, none, some, [],
  ◌∷◌, ◌++◌, if◌then◌else◌,
}
use conference_contact.Schema.{Db, Effect, mail}

-- The exception classes that the services throw, and the failures of what they call.
pub data Error : Type 0 where
  bad_request unauthorized forbidden not_found conflict service_unavailable : Error
  unique_violation foreign_key_violation record_not_found stripe_failure queue_failure : Error

abbrev pub is_unique_violation : Error → Bool
is_unique_violation unique_violation = true
is_unique_violation _ = false

pub data Result {ℓ} (A : Type ℓ) : Type ℓ where
  ok : A → Result A
  err : Error → Result A

-- To split on a computed result and keep the equation.
pub Result-cases :
    {A : Type 0} (r : Result A) → ((a : A) × (r ≡ ok a)) ⊎ ((e : Error) × (r ≡ err e))
Result-cases (ok a) = inl (a, refl)
Result-cases (err e) = inr (e, refl)

abbrev pub Action : Type 0 → Type 0
Action A = Db → Result A × Db

module _ {A : Type 0} where
  unfoldable pub pure : A → Action A
  pure a db = (ok a, db)

  unfoldable pub raise : Error → Action A
  raise e db = (err e, db)

  unfoldable pub gets : (Db → A) → Action A
  gets f db = (ok (f db), db)

  -- `if (!value) throw error`
  unfoldable pub or_raise : Option A → Error → Action A
  unfolding pure raise
  or_raise none e = raise e
  or_raise (some a) e = pure a

unfoldable pub skip : Action (Unit {0})
skip db = (ok tt, db)

unfoldable pub raise_if : Bool → Error → Action (Unit {0})
raise_if c e db = (if c then err e else ok tt, db)

unfoldable pub modify : (Db → Db) → Action (Unit {0})
modify f db = (ok tt, f db)

unfoldable pub emit : Effect → Action (Unit {0})
emit e db = (ok tt, record db { effects = db.effects ++ e ∷ [] })

-- Mail to the user of a row; the foreign key rules out that there is none.
unfoldable pub mail_user : ℕ → String → Action (Unit {0})
unfolding emit
mail_user id template db = elim (find_first (λ u. u.id == id) db.users) [
  | none ↦ (ok tt, db)
  | some u ↦ emit (mail template u.email) db
]

abbrev pub continue : {A B : Type 0} → Result A → (A → Action B) → Action B
continue (ok a) f db = f a db
continue (err e) f db = (err e, db)

infixl 5 ◌>>=◌ ◌>>◌
-- opening this opens the actions above
unfoldable pub ◌>>=◌ : {A B : Type 0} → Action A → (A → Action B) → Action B
unfolding pure raise gets or_raise skip raise_if modify emit mail_user
◌>>=◌ m f db = let (r, db') = m db in continue r f db'

abbrev pub ◌>>◌ : {A B : Type 0} → Action A → Action B → Action B
m >> k = m >>= λ _. k

abbrev catch : {A : Type 0} → Result A → Action A → Action A
catch (ok a) handler db = (ok a, db)
catch (err e) handler db = if is_unique_violation e then handler db else (err e, db)

-- `try { m } catch (err) { if (err.code === 'P2002') handler; else throw err; }`
unfoldable pub on_unique_violation : {A : Type 0} → Action A → Action A → Action A
unfolding ◌>>=◌
on_unique_violation m handler db = let (r, db') = m db in catch r handler db'
