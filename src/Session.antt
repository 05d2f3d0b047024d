-- ===== src/Session.antt =====
-- backend/app/db/session.py and the parts of a SQLAlchemy `Session` that the handlers use. A
-- request works on `working`; `db.commit()` makes it the `stored` database, unless the database
-- reports a broken constraint; `db.rollback()` forgets it, and so does the end of a request that
-- raises. What leaves the process is appended to `events`.
pub mod Keeps
pub mod Guards
use money_flow_service.Prelude.{
  refl, inl, inr, ◌⊎◌, ℕ, ◌≡◌, Bool, true, false, Option, none, some, List, [], ◌∷◌, ◌++◌,
}
use money_flow_service.Prelude.Text.{Text}
use money_flow_service.Errors.{AppError, Violation, integrity_error}
use money_flow_service.Models.{Database}

-- What a request sends: a broadcast to the household's sockets, a mail, a disconnection.
pub data Event : Type 0 where
  broadcast_created : (household_id entity_id version : ℕ) → Event
  broadcast_patched : (household_id entity_id version : ℕ) → List Text → (merged : Bool) → Event
  broadcast_deleted : (household_id : ℕ) → List ℕ → Event
  invitation_mail : (to_email : Text) → (token expires_minutes : ℕ) → Event
  disconnect_member : (household_id user_id : ℕ) → Event

pub record Session : Type 0 where
  pub stored : Database
  pub working : Database
  pub events : List Event

pub data Outcome {ℓ} (A : Type ℓ) : Type ℓ where
  ok : A → Outcome A
  raised : AppError → Outcome A

abbrev pub Handler : Type 0 → Type 0
Handler A = Session → Outcome A × Session

-- SessionLocal(): a session over the stored database.
abbrev pub open_session : Database → Session
open_session db = record { stored = db; working = db; events = [] }

module _ {A : Type 0} where
  abbrev pub pure : A → Handler A
  pure a s = (ok a, s)

  abbrev pub raise : AppError → Handler A
  raise e s = (raised e, s)

  abbrev pub query : (Database → A) → Handler A
  query f s = (ok (f s.working), s)

  -- `get_db`: when the request is over the session is closed, and only `stored` is left.
  abbrev pub stored_after : Handler A → Database → Database
  stored_after m db = (m (open_session db)).1.stored

  abbrev pub outcome : Handler A → Database → Outcome A
  outcome m db = (m (open_session db)).0

  abbrev pub or_raise : AppError → Option A → Handler A
  or_raise e none = raise e
  or_raise e (some a) = pure a

module _ {A B : Type 0} where
  abbrev pub continue : Outcome A → (A → Handler B) → Handler B
  continue (ok a) f s = f a s
  continue (raised e) f s = (raised e, s)

  infixl 5 ◌>>=◌ ◌>>◌
  abbrev pub ◌>>=◌ : Handler A → (A → Handler B) → Handler B
  ◌>>=◌ m f s = let (r, s') = m s in continue r f s'

  abbrev pub ◌>>◌ : Handler A → Handler B → Handler B
  m >> n = m >>= λ _. n

abbrev pub modify : (Database → Database) → Handler Unit
modify f s = (ok tt, record s { working = f s.working })

abbrev pub emit : Event → Handler Unit
emit e s = (ok tt, record s { events = s.events ++ e ∷ [] })

abbrev pub rollback : Handler Unit
rollback s = (ok tt, record s { working = s.stored })

-- `if test: raise error`
abbrev pub raise_if : Bool → AppError → Handler Unit
raise_if true e = raise e
raise_if false e = pure tt

-- The verdict of the database on a unit of work: the constraints, and what was written meanwhile.
abbrev pub Verdict : Type 0
Verdict = Database → Option Violation

-- The database takes what it is given.
abbrev pub IsAccepting : Verdict → Type 0
IsAccepting verdict = (db : Database) → verdict db ≡ none

abbrev commit_with : Option Violation → Handler (Option Violation)
commit_with none s = (ok none, record s { stored = s.working })
commit_with (some v) s = (ok (some v), s)

-- `try: db.commit()`, with the violation handed to the `except IntegrityError` clause.
unfoldable pub try_commit : Verdict → Handler (Option Violation)
try_commit verdict s = commit_with (verdict s.working) s

abbrev raise_violation : Option Violation → Handler Unit
raise_violation none = pure tt
raise_violation (some v) = raise (integrity_error v)

-- `db.commit()` outside any `try`
unfoldable pub commit : Verdict → Handler Unit
unfolding try_commit
commit verdict = try_commit verdict >>= raise_violation

-- A request that raises leaves the stored database as it was.
abbrev pub IsAtomic : {A : Type 0} → Database → Outcome A × Session → Type 0
IsAtomic db (raised e, s) = s.stored ≡ db
IsAtomic db (ok a, s) = Unit

-- A step ends in a value or in an error.
pub outcome_cases :
    {A : Type 0} (r : Outcome A × Session)
    → ((a : A) × (s : Session) × (r ≡ (ok a, s)))
      ⊎ ((e : AppError) × (s : Session) × (r ≡ (raised e, s)))
outcome_cases (ok a, s) = inl (a, s, refl)
outcome_cases (raised e, s) = inr (e, s, refl)
