-- ===== src/Auth/Attempts.antt =====
-- auth.py, `_consume_register_throttle_attempt`: the attempts by one key within a window.
use money_flow_service.Prelude.{
  suc, sym, length, leb, false, refl, nat_beq, inr, inl, true, Bool-cases, arith, ◌*◌, some, max,
  ◌≡◌, ltb, if◌then◌else◌, ◌+◌, [], ◌≤◌, ◌∷◌, List, ℕ,
}
use money_flow_service.Prelude.Tables.{count-delete_le, count-find?, find?, count}
use money_flow_service.Session.{
  Session, outcome, ok, open_session, raised, stored_after, try_commit, Outcome, Verdict,
  IsAccepting,
}
use money_flow_service.Auth.Throttles.{
  count_attempt, register_window, has_register_key, register_rounds, maybe_cleanup_auth_artifacts,
  count_register_attempt, consume_register_throttle_attempt,
}
use money_flow_service.Prelude.Tables.Finding.{find?-update, exists-count, find?-new, find?-delete}
use money_flow_service.Prelude.Text.{text_beq_iff, text_beq, Text}
use money_flow_service.Errors.{app_error, Code}
use money_flow_service.Models.{Database, RegisterThrottle}
use money_flow_service.Auth.Requests.{AuthSettings}

-- Attempts one after the other, at the given times, whether or not they are let through.
unfoldable pub attempt_all :
    AuthSettings
    → (ℕ → Verdict)
    → (max_attempts : ℕ) → (key : Text) → (rate_limited unavailable : Code) → (times : List ℕ)
    → Database
    → Database
unfolding consume_register_throttle_attempt
attempt_all settings verdicts max_attempts key limited unavailable [] db = db
attempt_all settings verdicts max_attempts key limited unavailable (now ∷ times) db =
    attempt_all settings verdicts max_attempts key limited unavailable times (
      stored_after
        (consume_register_throttle_attempt settings verdicts now max_attempts key limited
          unavailable)
        db)

unfoldable pub AreUntil : (time : ℕ) → List ℕ → Type 0
AreUntil time [] = Unit
AreUntil time (t ∷ ts) = (t ≤ time) × AreUntil time ts

abbrev counter : (key : Text) → (attempt_count window_started_at : ℕ) → RegisterThrottle
counter key n start = record { key = key; attempt_count = n; window_started_at = start }

module _ (settings : AuthSettings) (verdicts : ℕ → Verdict) (max_attempts : ℕ) (key : Text)
    (limited unavailable : Code) (accepts : (round : ℕ) → IsAccepting (verdicts round)) where
  abbrev attempt_at : (now : ℕ) → Database → Outcome (Unit {0}) × Session
  attempt_at now db =
      consume_register_throttle_attempt settings verdicts now max_attempts key limited unavailable
        (open_session db)

  abbrev verdict_on : (attempt_count : ℕ) → Outcome (Unit {0})
  verdict_on n = if ltb (max 1 max_attempts) n then raised (app_error 429 limited) else ok tt

  cleanup-keeps_counter :
      (now n start : ℕ) (db : Database)
      → now ≤ start + register_window settings
      → find? (has_register_key key) db.register_throttles ≡ some (counter key n start)
      → find?
          (has_register_key key)
          (maybe_cleanup_auth_artifacts settings now db).register_throttles
        ≡ some (counter key n start)
  unfolding maybe_cleanup_auth_artifacts
  cleanup-keeps_counter now n start db recent found =
      let kept =
        find?-delete
          (λ (row : RegisterThrottle).
            ltb (row.window_started_at + max 3600 (register_window settings * 4)) now)
          (has_register_key key) db.register_throttles found in
      ground (arith, kept)

  count_register_attempt-found :
      (now n start : ℕ) (rows : List RegisterThrottle)
      → now ≤ start + register_window settings
      → find? (has_register_key key) rows ≡ some (counter key n start)
      → find?
          (has_register_key key)
          (count_register_attempt (register_window settings) now key rows)
        ≡ some (counter key (n + 1) start)
  unfolding count_register_attempt
  count_register_attempt-found now n start rows recent found =
      let window = register_window settings in
      let own : text_beq key key ≡ true = (text_beq_iff key key).1 refl in
      let some_row = count-find? (has_register_key key) rows found in
      let there : nat_beq (count (has_register_key key) rows) 0 ≡ false = ground arith in
      let open_window : ltb (start + window) now ≡ false = ground arith in
      let updated =
        find?-update (has_register_key key) (has_register_key key) (count_attempt window now) rows
          (λ row _. ground arith) found in
      rw there (rw (own, open_window) at updated)

  count_register_attempt-first :
      (now : ℕ) (rows : List RegisterThrottle)
      → count (has_register_key key) rows ≡ 0
      → find?
          (has_register_key key)
          (count_register_attempt (register_window settings) now key rows)
        ≡ some (counter key 1 now)
  unfolding count_register_attempt
  count_register_attempt-first now rows none_yet =
      let own : text_beq key key ≡ true = (text_beq_iff key key).1 refl in
      rw none_yet (
        find?-new (has_register_key key) rows (counter key 1 now)
          (exists-count (has_register_key key) rows none_yet) own)

  cleanup-none :
      (now : ℕ) (db : Database)
      → count (has_register_key key) db.register_throttles ≡ 0
      → count
          (has_register_key key)
          (maybe_cleanup_auth_artifacts settings now db).register_throttles
        ≡ 0
  unfolding maybe_cleanup_auth_artifacts
  cleanup-none now db none_yet =
      let fewer =
        count-delete_le
          (λ (row : RegisterThrottle).
            ltb (row.window_started_at + max 3600 (register_window settings * 4)) now)
          (has_register_key key) db.register_throttles in
      ground (arith, fewer)

  -- The attempt is counted in the first round, and judged by the counter after it.
  consume_counted :
      (now n start : ℕ) (db : Database)
      → now ≤ start + register_window settings
      → find? (has_register_key key) (
          count_register_attempt
            (register_window settings)
            now
            key
            (maybe_cleanup_auth_artifacts settings now db).register_throttles)
        ≡ some (counter key n start)
      → ((attempt_at now db).0 ≡ verdict_on n)
        × (find? (has_register_key key) (attempt_at now db).1.stored.register_throttles
            ≡ some (counter key n start))
  unfolding consume_register_throttle_attempt register_rounds try_commit
  consume_counted now n start db recent found =
      let window = register_window settings in
      let cleaned = maybe_cleanup_auth_artifacts settings now db in
      let rows = count_register_attempt window now key cleaned.register_throttles in
      let counted : Database = record cleaned { register_throttles = rows } in
      let in_window : leb now (start + window) ≡ true = ground arith in
      elim (Bool-cases (ltb (max 1 max_attempts) n)) [
        | inl e ↦ rw (accepts 3 counted, found, in_window, e) (refl, found)
        | inr e ↦ rw (accepts 3 counted, found, in_window, e) (refl, found)
      ]

  -- A further attempt in the window.
  consume_next :
      (now n start : ℕ) (db : Database)
      → now ≤ start + register_window settings
      → find? (has_register_key key) db.register_throttles ≡ some (counter key n start)
      → ((attempt_at now db).0 ≡ verdict_on (n + 1))
        × (find? (has_register_key key) (attempt_at now db).1.stored.register_throttles
            ≡ some (counter key (n + 1) start))
  consume_next now n start db recent found = consume_counted now (n + 1) start db recent (
      count_register_attempt-found now n start
        (maybe_cleanup_auth_artifacts settings now db).register_throttles recent
        (cleanup-keeps_counter now n start db recent found))

  attempt_all-counted :
      (times : List ℕ) (n start : ℕ) (db : Database)
      → AreUntil (start + register_window settings) times
      → find? (has_register_key key) db.register_throttles ≡ some (counter key n start)
      → find?
          (has_register_key key)
          (attempt_all settings verdicts max_attempts key limited unavailable times
            db).register_throttles
        ≡ some (counter key (n + length times) start)
  unfolding attempt_all AreUntil
  attempt_all-counted [] n start db recent found =
      let same : n + 0 ≡ n = omega arith in rw same found
  attempt_all-counted (now ∷ times) n start db recent found =
      let next = consume_next now n start db recent.0 found in
      let same : n + 1 + length times ≡ n + suc (length times) = omega arith in
      rw (sym same)
        (attempt_all-counted times (n + 1) start (attempt_at now db).1.stored recent.1 next.1)

  -- If no attempt by a key is counted and the database takes every commit, then of the attempts by
  -- that key within a window of the first, one is let through exactly if no more than the limit, of
  -- at least one, have been made with it.
  pub consume_register_throttle_attempt-bound :
      (start now : ℕ) (times : List ℕ) (db : Database)
      → count (has_register_key key) db.register_throttles ≡ 0
      → AreUntil (start + register_window settings) times
      → now ≤ start + register_window settings
      → outcome
          (consume_register_throttle_attempt settings verdicts now max_attempts key limited
            unavailable)
          (attempt_all settings verdicts max_attempts key limited unavailable (start ∷ times) db)
        ≡ (if ltb (max 1 max_attempts) (length times + 2)
            then raised (app_error 429 limited)
            else ok tt)
  unfolding attempt_all
  consume_register_throttle_attempt-bound start now times db none_yet recent late =
      let first = consume_counted start 1 start db (omega arith) (
        count_register_attempt-first start
          (maybe_cleanup_auth_artifacts settings start db).register_throttles
          (cleanup-none start db none_yet)) in
      let db' = (attempt_at start db).1.stored in
      let later = attempt_all-counted times 1 start db' recent first.1 in
      let last =
        consume_next now (1 + length times) start
          (attempt_all settings verdicts max_attempts key limited unavailable times db') late
          later in
      let same : 1 + length times + 1 ≡ length times + 2 = omega arith in rw (sym same) last.0
