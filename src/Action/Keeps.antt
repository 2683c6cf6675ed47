-- ===== src/Action/Keeps.antt =====
-- What an action does to the database, whether it returns or throws: one rule for each way to
-- build an action, for a relation between the states before and after.
use conference_contact.Prelude.{
  ℕ, String, ◌==◌, find_first, Bool, true, false, Option, none, some, if◌then◌else◌, Option-cases,
  Bool-cases, inl, inr,
}
use conference_contact.Schema.{Db, Effect, mail}
use conference_contact.Action.{
  Action, Result, ok, err, Error, is_unique_violation, pure, raise, gets, or_raise, skip, raise_if,
  modify, emit, mail_user, continue, catch, ◌>>=◌, on_unique_violation,
}

-- `m` relates each state to the one that it leaves.
pub record Keeps {A : Type 0} (R : Db → Db → Type 0) (m : Action A) : Type 0 where
  pub at : (db : Db) → R db (m db).1

-- A relation that holds of equal states, composes, and does not look at the effects.
pub record IsStable (R : Db → Db → Type 0) : Type 0 where
  pub same : (db : Db) → R db db
  pub compose : (a b c : Db) → R a b → R b c → R a c
  pub effect : (db : Db) (e : Effect) → R db (emit e db).1

module _ {R : Db → Db → Type 0} {A : Type 0} where
  pub Keeps-pure : IsStable R → (a : A) → Keeps R (pure a)
  unfolding pure
  Keeps-pure stable a = record { at = stable.same }

  pub Keeps-raise : IsStable R → (e : Error) → Keeps R (raise {A = A} e)
  unfolding raise
  Keeps-raise stable e = record { at = stable.same }

  pub Keeps-gets : IsStable R → (f : Db → A) → Keeps R (gets f)
  unfolding gets
  Keeps-gets stable f = record { at = stable.same }

  pub Keeps-or_raise : IsStable R → (o : Option A) (e : Error) → Keeps R (or_raise o e)
  unfolding or_raise
  Keeps-or_raise stable none e = Keeps-raise stable e
  Keeps-or_raise stable (some a) e = Keeps-pure stable a

  pub Keeps-if : (b : Bool) (m n : Action A) → Keeps R m → Keeps R n → Keeps R (if b then m else n)
  Keeps-if true m n km kn = km
  Keeps-if false m n km kn = kn

  pub Keeps-on_unique_violation :
      IsStable R
      → (m handler : Action A) → Keeps R m
      → Keeps R handler
      → Keeps R (on_unique_violation m handler)
  unfolding on_unique_violation
  Keeps-on_unique_violation stable m handler km kh = record {
    at = λ db. let (r, db') = m db in go db db' (km.at db) r;
  }
    where
      go : (db db' : Db) → R db db' → (r : Result A) → R db (catch r handler db').1
      go db db' h (ok a) = h
      go db db' h (err e) = elim (Bool-cases (is_unique_violation e)) [
        | inl yes_it_is ↦ rw yes_it_is (stable.compose db db' _ h (kh.at db'))
        | inr other ↦ rw other h
      ]

module _ {R : Db → Db → Type 0} {A B : Type 0} where
  Keeps-continue :
      IsStable R
      → (r : Result A) (f : A → Action B) → ((a : A) → Keeps R (f a))
      → (db db' : Db) → R db db'
      → R db (continue r f db').1
  Keeps-continue stable (ok a) f kf db db' h = stable.compose db db' _ h ((kf a).at db')
  Keeps-continue stable (err e) f kf db db' h = h

  pub Keeps-bind :
      IsStable R
      → (m : Action A) (f : A → Action B) → Keeps R m
      → ((a : A) → Keeps R (f a))
      → Keeps R (m >>= f)
  unfolding ◌>>=◌
  Keeps-bind stable m f km kf = record {
    at = λ db. let (r, db') = m db in Keeps-continue stable r f kf db db' (km.at db);
  }

module _ {R : Db → Db → Type 0} where
  pub Keeps-skip : IsStable R → Keeps R skip
  unfolding skip
  Keeps-skip stable = record { at = stable.same }

  pub Keeps-raise_if : IsStable R → (c : Bool) (e : Error) → Keeps R (raise_if c e)
  unfolding raise_if
  Keeps-raise_if stable c e = record { at = stable.same }

  pub Keeps-modify : (f : Db → Db) → ((db : Db) → R db (f db)) → Keeps R (modify f)
  unfolding modify
  Keeps-modify f h = record { at = h }

  pub Keeps-emit : IsStable R → (e : Effect) → Keeps R (emit e)
  Keeps-emit stable e = record { at = λ db. stable.effect db e }

  pub Keeps-mail_user : IsStable R → (id : ℕ) (template : String) → Keeps R (mail_user id template)
  unfolding mail_user
  Keeps-mail_user stable id template = record {
    at = λ db. elim (Option-cases (find_first (λ u. u.id == id) db.users)) [
      | inl e ↦ rw (e, mail_user) (stable.same db)
      | inr (u, e) ↦ rw (e, mail_user) (stable.effect db (mail template u.email))
    ];
  }

pub ruleset keeps_rules = (
  Keeps-pure, Keeps-raise, Keeps-gets, Keeps-or_raise, Keeps-if, Keeps-on_unique_violation,
  Keeps-bind, Keeps-skip, Keeps-raise_if, Keeps-emit, Keeps-mail_user,
)
