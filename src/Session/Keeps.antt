-- ===== src/Session/Keeps.antt =====
-- An invariant of the database that a handler keeps, in what is stored and in what it works on: a rule
-- for each way to make a handler.
use money_flow_service.Prelude.{
  none, inr, inl, some, false, true, Option-cases, if◌then◌else◌, Option, Bool,
}
use money_flow_service.Session.{
  outcome_cases, open_session, or_raise, raise_if, stored_after, modify, Verdict, ◌>>=◌, query,
  rollback, try_commit, commit, Session, Handler,
}
use money_flow_service.Errors.{AppError}
use money_flow_service.Models.{Database}

module _ (Inv : Database → Type 0) where
  abbrev pub Holds : Session → Type 0
  Holds s = Inv s.stored × Inv s.working

  abbrev pub Keeps : {A : Type 0} → Handler A → Type 0
  Keeps m = (s : Session) → Holds s → Holds (m s).1

  pub Keeps-bind :
      {A B : Type 0} (m : Handler A) (f : A → Handler B)
      → Keeps m
      → ((a : A) → Keeps (f a))
      → Keeps (m >>= f)
  Keeps-bind m f keep keeps s h = elim (outcome_cases (m s)) [
    | inl (a, s', e) ↦ rw e (keeps a s' (rw e at (keep s h)))
    | inr (x, s', e) ↦ rw e (rw e at (keep s h))
  ]

  -- What a query reads is of the database that it leaves.
  pub Keeps-query :
      {A B : Type 0} (g : Database → A) (f : A → Handler B)
      → ((s : Session) → Holds s → Holds (f (g s.working) s).1)
      → Keeps (query g >>= f)
  Keeps-query g f keep s h = keep s h

  pub Keeps-raise_if : (b : Bool) (e : AppError) → Keeps (raise_if b e)
  Keeps-raise_if true e s h = h
  Keeps-raise_if false e s h = h

  pub Keeps-or_raise : {A : Type 0} (e : AppError) (o : Option A) → Keeps (or_raise e o)
  Keeps-or_raise e none s h = h
  Keeps-or_raise e (some a) s h = h

  pub Keeps-modify :
      (f : Database → Database) → ((db : Database) → Inv db → Inv (f db)) → Keeps (modify f)
  Keeps-modify f keep s h = (h.0, keep s.working h.1)

  pub Keeps-try_commit : (verdict : Verdict) → Keeps (try_commit verdict)
  unfolding try_commit
  Keeps-try_commit verdict s h = elim (Option-cases (verdict s.working)) [
    | inl e ↦ rw e (h.1, h.1)
    | inr (v, e) ↦ rw e h
  ]

  pub Keeps-commit : (verdict : Verdict) → Keeps (commit verdict)
  unfolding commit try_commit
  Keeps-commit verdict s h = elim (Option-cases (verdict s.working)) [
    | inl e ↦ rw e (h.1, h.1)
    | inr (v, e) ↦ rw e h
  ]

  pub Keeps-rollback : Keeps rollback
  Keeps-rollback s h = (h.0, h.0)

  pub Keeps-if :
      {A : Type 0} (b : Bool) (m n : Handler A) → Keeps m → Keeps n → Keeps (if b then m else n)
  Keeps-if true m n hm hn = hm
  Keeps-if false m n hm hn = hn

  -- What a request leaves stored.
  pub stored-Keeps :
      {A : Type 0} (m : Handler A) (db : Database) → Keeps m → Inv db → Inv (stored_after m db)
  stored-Keeps m db keep h = (keep (open_session db) (h, h)).0
