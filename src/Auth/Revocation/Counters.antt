-- ===== src/Auth/Revocation/Counters.antt =====
-- Rows of revoked tokens through the counters of attempts (auth.py).
use money_flow_service.Prelude.Text.{text_eq, Text}
use money_flow_service.Auth.Throttles.{
  after_register_round, after_failure_round, register_round, has_register_key, is_over_limit,
  count_or_add_failure, judge_attempt, count_register_attempt, count_failure, register_window,
  maybe_cleanup_auth_artifacts, register_rounds, failure_rounds, record_login_failure,
  consume_register_throttle_attempt,
}
use money_flow_service.Errors.{Violation, app_error, Code}
use money_flow_service.Session.{Handler, ◌>>◌, Verdict, try_commit, modify}
use money_flow_service.Prelude.{none, zero, some, max, suc, Option, ◌<◌, ℕ}
use money_flow_service.Session.Keeps.{
  Keeps-try_commit, Keeps-raise_if, Keeps-modify, Keeps-bind, Keeps-commit, Keeps,
}
use money_flow_service.Prelude.Tables.{find?}
use money_flow_service.Auth.Revocation.Rows.{maybe_cleanup-kept}
use money_flow_service.Auth.Requests.{AuthSettings}
use money_flow_service.Models.{RegisterThrottle, Database}
use money_flow_service.Auth.Revocation.{IsRevokedUntil}

module _ (jti exp : ℕ) where
  abbrev Revoked : Database → Type 0
  Revoked = IsRevokedUntil jti exp

  module _ (now : ℕ) (before : now < exp) where
    cleanup-Keeps :
        (settings : AuthSettings)
        → Keeps Revoked (modify (maybe_cleanup_auth_artifacts settings now))
    cleanup-Keeps settings =
        Keeps-modify Revoked (maybe_cleanup_auth_artifacts settings now)
          (λ db h. maybe_cleanup-kept settings now db jti exp before h)

    judge_attempt-Keeps :
        (window max_attempts : ℕ) (code : Code) (row : Option RegisterThrottle)
        → Keeps Revoked (judge_attempt window now max_attempts code row)
    judge_attempt-Keeps window max_attempts code none = λ s h. h
    judge_attempt-Keeps window max_attempts code (some row) =
        Keeps-raise_if Revoked (is_over_limit window now max_attempts row) (app_error 429 code)

    after_register_round-Keeps :
        (window max_attempts : ℕ) (key : Text) (code : Code) (retry : Handler Unit)
        → Keeps Revoked retry
        → (o : Option Violation)
        → Keeps Revoked (after_register_round window now max_attempts key code retry o)
    unfolding find?
    after_register_round-Keeps window max_attempts key code retry keep none = λ s h.
        judge_attempt-Keeps window max_attempts code
          (find? (has_register_key key) s.working.register_throttles) s h
    after_register_round-Keeps window max_attempts key code retry keep (some v) =
        λ s h. keep (record s { working = s.stored }) (h.0, h.0)

    register_rounds-Keeps :
        (verdicts : ℕ → Verdict) (window max_attempts : ℕ) (key : Text)
        (rate_limited unavailable : Code) (rounds : ℕ)
        → Keeps Revoked
            (register_rounds verdicts window now max_attempts key rate_limited unavailable rounds)
    unfolding register_rounds
    register_rounds-Keeps verdicts window max_attempts key limited unavailable zero = λ s h. h
    register_rounds-Keeps verdicts window max_attempts key limited unavailable (suc rounds) =
        let retry =
          register_rounds verdicts window now max_attempts key limited unavailable rounds in
        Keeps-bind Revoked (register_round (verdicts rounds) window now key)
          (after_register_round window now max_attempts key limited retry)
          (λ s h.
            Keeps-try_commit Revoked (verdicts rounds)
              (record s {
                working = record s.working {
                  register_throttles =
                      count_register_attempt window now key s.working.register_throttles;
                };
              })
              h)
          (after_register_round-Keeps window max_attempts key limited retry
            (register_rounds-Keeps verdicts window max_attempts key limited unavailable rounds))

    pub consume_register_throttle_attempt-Keeps :
        (settings : AuthSettings) (verdicts : ℕ → Verdict) (max_attempts : ℕ) (key : Text)
        (rate_limited unavailable : Code)
        → Keeps Revoked (
            consume_register_throttle_attempt settings verdicts now max_attempts key rate_limited
              unavailable)
    unfolding consume_register_throttle_attempt
    consume_register_throttle_attempt-Keeps settings verdicts max_attempts key limited unavailable =
        let rounds =
          register_rounds verdicts (register_window settings) now (max 1 max_attempts) key limited
            unavailable 4 in
        Keeps-bind Revoked (modify (maybe_cleanup_auth_artifacts settings now)) (λ _. rounds)
          (cleanup-Keeps settings)
          (λ _.
            register_rounds-Keeps verdicts (register_window settings) (max 1 max_attempts) key
              limited unavailable 4)

    after_failure_round-Keeps :
        (retry : Handler Unit)
        → Keeps Revoked retry
        → (o : Option Violation) → Keeps Revoked (after_failure_round retry o)
    after_failure_round-Keeps retry keep none = λ s h. h
    after_failure_round-Keeps retry keep (some v) =
        λ s h. keep (record s { working = s.stored }) (h.0, h.0)

    failure_rounds-Keeps :
        (verdicts : ℕ → Verdict) (key : Text) (rounds : ℕ)
        → Keeps Revoked (failure_rounds verdicts now key rounds)
    unfolding failure_rounds
    failure_rounds-Keeps verdicts key zero = λ s h.
        Keeps-commit Revoked (verdicts 0)
          (record s {
            working = record s.working {
              login_throttles = count_failure key s.working.login_throttles;
            };
          })
          h
    failure_rounds-Keeps verdicts key (suc rounds) =
        Keeps-bind Revoked
          (modify (λ db. record db {
            login_throttles = count_or_add_failure now key db.login_throttles;
          })
            >> try_commit (verdicts (suc rounds)))
          (after_failure_round (failure_rounds verdicts now key rounds))
          (λ s h.
            Keeps-try_commit Revoked (verdicts (suc rounds))
              (record s {
                working = record s.working {
                  login_throttles = count_or_add_failure now key s.working.login_throttles;
                };
              })
              h)
          (after_failure_round-Keeps (failure_rounds verdicts now key rounds)
            (failure_rounds-Keeps verdicts key rounds))

    pub record_login_failure-Keeps :
        (settings : AuthSettings) (verdicts : ℕ → Verdict) (key : Text)
        → Keeps Revoked (record_login_failure settings verdicts now key)
    unfolding record_login_failure
    record_login_failure-Keeps settings verdicts key =
        Keeps-bind Revoked (modify (maybe_cleanup_auth_artifacts settings now))
          (λ _. failure_rounds verdicts now key 3) (cleanup-Keeps settings)
          (λ _. failure_rounds-Keeps verdicts key 3)
