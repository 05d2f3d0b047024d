-- ===== src/Ledger/History/Paging.antt =====
-- transactions.py, `list_transaction_history`: the page that a cursor asks for.
use money_flow_service.Prelude.{
  ◌∙◌, ap, max, length, arith, ltb, ◌+◌, nat_beq_refl, refl, suc, [], take, ◌∷◌, ◌++◌, false, some,
  ◌≡◌, List, ℕ, true,
}
use money_flow_service.Ledger.Tokens.{CursorCodec}
use money_flow_service.Ledger.Tokens.Laws.{IsCodec}
use money_flow_service.Ledger.Cursor.{
  older_than_cursor, newer_than_cursor, decode_history_cursor, cursor_of, leq_history, geq_history,
  encode_history_cursor, HistoryCursor,
}
use money_flow_service.Ledger.History.{
  TransactionHistoryPage, reversed, history_page, is_in_history, page_of, list_transaction_history,
  cursor_or_raise, older_rows, newer_rows, older, newer,
}
use money_flow_service.Session.{Outcome, open_session, outcome, Session, ok}
use money_flow_service.Session.Guards.{bind_ok}
use money_flow_service.Ledger.History.Order.{
  newer_than_cursor-leq, older_than_cursor-leq, leq_history_antisym, leq_history_trans,
  leq_history_total,
}
use money_flow_service.Ledger.History.Pages.{longer-take, take-longer, query-after}
use money_flow_service.Ledger.History.Cursors.{token-is_empty, decode-encode_history_cursor}
use money_flow_service.Prelude.Tables.{select, HasUniqueKey}
use money_flow_service.Prelude.Text.{is_empty, Text}
use money_flow_service.Ledger.Order.{sort_by}
use money_flow_service.Models.{Household, Transaction, Database}

-- The history of a household up to a day, the last transaction first, and the first one first.
abbrev pub history_desc : (household_id last_day : ℕ) → Database → List Transaction
history_desc household_id last_day db =
    sort_by geq_history (select (is_in_history household_id last_day) db.transactions)

abbrev pub history_asc : (household_id last_day : ℕ) → Database → List Transaction
history_asc household_id last_day db =
    sort_by leq_history (select (is_in_history household_id last_day) db.transactions)

older_rows-after :
    (household_id day limit : ℕ) (db : Database) (r : Transaction) (xs ys : List Transaction)
    → HasUniqueKey (λ (t : Transaction). t.id) db.transactions
    → history_desc household_id day db ≡ xs ++ r ∷ ys
    → older_rows household_id day (cursor_of household_id r) limit db ≡ take (suc limit) ys
unfolding older_rows
older_rows-after household_id day limit db r xs ys unique whole =
    let next : limit + 1 ≡ suc limit = omega arith in
    let rest =
      query-after geq_history (λ a b h. leq_history_total b a h)
        (λ a b c h k. leq_history_trans c b a k h) (λ a b h k. leq_history_antisym a b k h)
        (is_in_history household_id day) (older_than_cursor (cursor_of household_id r)) r xs ys
        db.transactions (older_than_cursor-leq household_id r) unique whole in
    rw (next, rest) refl

newer_rows-after :
    (household_id day limit : ℕ) (db : Database) (r : Transaction) (xs ys : List Transaction)
    → HasUniqueKey (λ (t : Transaction). t.id) db.transactions
    → history_asc household_id day db ≡ xs ++ r ∷ ys
    → newer_rows household_id day (cursor_of household_id r) limit db ≡ take (suc limit) ys
unfolding newer_rows
newer_rows-after household_id day limit db r xs ys unique whole =
    let next : limit + 1 ≡ suc limit = omega arith in
    let rest =
      query-after leq_history leq_history_total leq_history_trans leq_history_antisym
        (is_in_history household_id day) (newer_than_cursor (cursor_of household_id r)) r xs ys
        db.transactions (newer_than_cursor-leq household_id r) unique whole in
    rw (next, rest) refl

cursor_or_raise-some :
    (codec : CursorCodec) (household_id : ℕ) (raw : Text) (cursor : HistoryCursor) (s : Session)
    → is_empty raw ≡ false
    → decode_history_cursor codec raw household_id ≡ some cursor
    → cursor_or_raise codec household_id (some raw) s ≡ (ok (some cursor), s)
cursor_or_raise-some codec household_id [] cursor s h k = cc
cursor_or_raise-some codec household_id (c ∷ cs) cursor s h k = rw k refl

module _ (codec : CursorCodec) (is_codec : IsCodec codec) (today : ℕ) (household : Household)
    (day limit : ℕ) (db : Database) (r : Transaction) (xs ys : List Transaction)
    (unique : HasUniqueKey (λ (t : Transaction). t.id) db.transactions) where
  abbrev token : Text
  token = encode_history_cursor codec r household.id

  token_cursor :
      (s : Session)
      → cursor_or_raise codec household.id (some token) s
        ≡ (ok (some (cursor_of household.id r)), s)
  token_cursor s =
      let decoded = decode-encode_history_cursor codec r household.id household.id is_codec in
      let own = nat_beq_refl household.id in
      cursor_or_raise-some codec household.id token (cursor_of household.id r) s
        (token-is_empty codec r household.id is_codec) (rw own at decoded)

  page_of-older :
      history_desc household.id day db ≡ xs ++ r ∷ ys
      → (page_of codec household.id day today limit older
          (some (cursor_of household.id r))
          (open_session db)).0
        ≡ ok (
            history_page codec household.id day today
              (ltb limit (length ys))
              true
              (reversed (take limit ys))
              db)
  unfolding page_of
  page_of-older whole =
      let rows = older_rows-after household.id day limit db r xs ys unique whole in
      rw (rows, take-longer limit ys, longer-take limit ys) refl

  -- Let the standard library do what is documented, and let the history up to a day, the last
  -- transaction first, have a transaction r with the rows ys after it, and the ids be unique. Then the
  -- older page from the cursor of r has the first rows of ys, as many as the limit allows and in
  -- ascending order, and says that there are older ones exactly if ys has more.
  pub list_transaction_history-older :
      history_desc household.id day db ≡ xs ++ r ∷ ys
      → outcome
          (list_transaction_history codec today household (some day) older (some token) limit)
          db
        ≡ ok (
            history_page codec household.id day today
              (ltb limit (length ys))
              true
              (reversed (take limit ys))
              db)
  unfolding list_transaction_history
  list_transaction_history-older whole =
      let opened = open_session db in
      let answered =
        bind_ok (cursor_or_raise codec household.id (some token))
          (page_of codec household.id day today limit older) (some (cursor_of household.id r))
          opened (token_cursor opened) in
      ap (λ (x : Outcome TransactionHistoryPage × Session). x.0) answered ∙ page_of-older whole

  page_of-newer :
      history_asc household.id (max day today) db ≡ xs ++ r ∷ ys
      → (page_of codec household.id day today limit newer
          (some (cursor_of household.id r))
          (open_session db)).0
        ≡ ok (
            history_page codec household.id day today true
              (ltb limit (length ys))
              (take limit ys)
              db)
  unfolding page_of
  page_of-newer whole =
      let rows = newer_rows-after household.id (max day today) limit db r xs ys unique whole in
      rw (rows, take-longer limit ys, longer-take limit ys) refl

  -- Let the standard library do what is documented, and let the history up to the later of a day and
  -- today, the first transaction first, have a transaction r with the rows ys after it, and the ids be
  -- unique. Then the newer page from the cursor of r has the first rows of ys, as many as the limit
  -- allows, and says that there are newer ones exactly if ys has more.
  pub list_transaction_history-newer :
      history_asc household.id (max day today) db ≡ xs ++ r ∷ ys
      → outcome
          (list_transaction_history codec today household (some day) newer (some token) limit)
          db
        ≡ ok (
            history_page codec household.id day today true
              (ltb limit (length ys))
              (take limit ys)
              db)
  unfolding list_transaction_history
  list_transaction_history-newer whole =
      let opened = open_session db in
      let answered =
        bind_ok (cursor_or_raise codec household.id (some token))
          (page_of codec household.id day today limit newer) (some (cursor_of household.id r))
          opened (token_cursor opened) in
      ap (λ (x : Outcome TransactionHistoryPage × Session). x.0) answered ∙ page_of-newer whole
