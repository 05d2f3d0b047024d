-- ===== src/Ledger/History.antt =====
-- transactions.py, `list_transaction_history`: pages of the history, from a signed cursor on.
use money_flow_service.Ledger.Tokens.{CursorCodec}
use money_flow_service.Ledger.Cursor.{
  leq_history, HistoryCursor, encode_history_cursor, geq_history, newer_than_cursor,
  older_than_cursor, decode_history_cursor,
}
use money_flow_service.Prelude.{
  max, length, leb, nat_eq, false, [], ◌&&◌, true, ◌||◌, not, ◌+◌, if◌then◌else◌, ◌==◌, ◌++◌, some,
  none, take, map, ltb, ◌∷◌, Bool, Option, List, ℕ,
}
use money_flow_service.Session.{query, or_raise, raise, ◌>>=◌, Handler, pure}
use money_flow_service.Errors.{
  transaction_history_cursor_required, transaction_history_cursor_invalid, app_error,
}
use money_flow_service.Ledger.Order.{leq_same_day, sort_by}
use money_flow_service.Prelude.Text.{text_eq, is_empty, strip, Text}
use money_flow_service.Ledger.Reads.{linked_owner_name, TransactionRead, to_transaction_read}
use money_flow_service.Prelude.Tables.{select}
use money_flow_service.Models.{Household, Transaction, Database}
pub mod Order
pub mod Sorting
pub mod Cursors
pub mod Pages
pub mod Paging
mod Examples
use mathlib.Core.Option

pub data Direction : Type 0 where
  initial older newer : Direction

pub record TransactionHistoryPage : Type 0 where
  pub items : List TransactionRead
  pub older_cursor : Option Text
  pub newer_cursor : Option Text
  pub has_older : Bool
  pub has_newer : Bool
  pub anchor_date : ℕ
  pub today : ℕ

-- The history of a household up to a day
abbrev pub is_in_history : (household_id last_day : ℕ) → Transaction → Bool
is_in_history household_id last_day t = t.household_id == household_id && leb t.occurred_on last_day

-- `query.limit(limit + 1)`, in the order of the query.
unfoldable pub older_rows :
    (household_id anchor : ℕ) → HistoryCursor → (limit : ℕ) → Database → List Transaction
unfolding sort_by select older_than_cursor
older_rows household_id anchor cursor limit db = take (limit + 1) (
    sort_by geq_history (
      select (λ t. is_in_history household_id anchor t && older_than_cursor cursor t)
        db.transactions))

unfoldable pub newer_rows :
    (household_id upper_bound : ℕ) → HistoryCursor → (limit : ℕ) → Database → List Transaction
unfolding sort_by select newer_than_cursor
newer_rows household_id upper_bound cursor limit db = take (limit + 1) (
    sort_by leq_history (
      select (λ t. is_in_history household_id upper_bound t && newer_than_cursor cursor t)
        db.transactions))

unfoldable pub initial_rows : (household_id anchor limit : ℕ) → Database → List Transaction
unfolding sort_by select
initial_rows household_id anchor limit db =
    take (limit + 1)
      (sort_by geq_history (select (is_in_history household_id anchor) db.transactions))

abbrev pub first_of : List Transaction → Option Transaction
first_of [] = none
first_of (t ∷ ts) = some t

unfoldable pub last_of : List Transaction → Option Transaction
last_of [] = none
last_of (t ∷ []) = some t
last_of (t ∷ u ∷ ts) = last_of (u ∷ ts)

unfoldable pub reversed : List Transaction → List Transaction
reversed [] = []
reversed (t ∷ ts) = reversed ts ++ t ∷ []

abbrev pub read_row : Database → Transaction → TransactionRead
read_row db t = to_transaction_read t (linked_owner_name db t.owner_user_id)

-- The page of rows in ascending order.
abbrev pub history_page :
    CursorCodec
    → (household_id anchor today : ℕ) → (has_older has_newer : Bool) → List Transaction
    → Database
    → TransactionHistoryPage
history_page codec household_id anchor today has_older has_newer rows db = record {
  items = map (read_row db) rows;
  older_cursor = Option.map (λ t. encode_history_cursor codec t household_id) (first_of rows);
  newer_cursor = Option.map (λ t. encode_history_cursor codec t household_id) (last_of rows);
  has_older = has_older;
  has_newer = has_newer;
  anchor_date = anchor;
  today = today;
}

-- `_decode_history_cursor(...) if cursor else None`; then the direction, with its cursor.
abbrev pub cursor_or_raise :
    CursorCodec → (household_id : ℕ) → Option Text → Handler (Option HistoryCursor)
cursor_or_raise codec household_id none = pure none
cursor_or_raise codec household_id (some []) = pure none
cursor_or_raise codec household_id (some (c ∷ cs)) = do
  cursor ←
      or_raise (app_error 400 transaction_history_cursor_invalid)
        (decode_history_cursor codec (c ∷ cs) household_id)
  pure (some cursor)

unfoldable pub page_of :
    CursorCodec
    → (household_id anchor today limit : ℕ) → Direction
    → Option HistoryCursor
    → Handler TransactionHistoryPage
unfolding older_rows newer_rows initial_rows reversed encode_history_cursor last_of
    to_transaction_read
page_of codec household_id anchor today limit older none =
    raise (app_error 400 transaction_history_cursor_required)
page_of codec household_id anchor today limit older (some cursor) = query (λ db.
    let rows = older_rows household_id anchor cursor limit db in
    history_page codec household_id anchor today (ltb limit (length rows)) true
      (reversed (take limit rows)) db)
page_of codec household_id anchor today limit newer none =
    raise (app_error 400 transaction_history_cursor_required)
page_of codec household_id anchor today limit newer (some cursor) = query (λ db.
    let rows = newer_rows household_id (max anchor today) cursor limit db in
    history_page codec household_id anchor today true (ltb limit (length rows)) (take limit rows)
      db)
page_of codec household_id anchor today limit initial cursor = query (λ db.
    let rows = initial_rows household_id anchor limit db in
    history_page codec household_id anchor today (ltb limit (length rows)) (ltb anchor today)
      (reversed (take limit rows)) db)

-- `anchor_date or today`
abbrev anchor_or : (today : ℕ) → Option ℕ → ℕ
anchor_or today none = today
anchor_or today (some day) = day

unfoldable pub list_transaction_history :
    CursorCodec
    → (today : ℕ) → Household
    → (anchor_date : Option ℕ) → Direction
    → (cursor : Option Text) → (limit : ℕ) → Handler TransactionHistoryPage
unfolding decode_history_cursor page_of
list_transaction_history codec today household anchor_date direction raw_cursor limit = do
  cursor ← cursor_or_raise codec household.id raw_cursor
  page_of codec household.id (anchor_or today anchor_date) today limit direction cursor
