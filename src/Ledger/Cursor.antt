-- ===== src/Ledger/Cursor.antt =====
-- transactions.py: where a page of the history starts, as a signed token.
use money_flow_service.Prelude.{
  [], option_eq, ◌∷◌, nat_eq, none, ◌&&◌, ◌==◌, false, not, true, ◌||◌, ltb, if◌then◌else◌, Option,
  Bool, ℕ, some,
}
use money_flow_service.Prelude.Text.{text, text_eq, is_empty, Text, strip}
use money_flow_service.Ledger.Order.{leq_same_day}
use money_flow_service.Models.{Transaction}
use money_flow_service.Ledger.Tokens.{
  get, replace, padded, rstrip_padding, number, string, str_or_empty, int_of, int_or_zero, unsigned,
  canonical_created_at, history_cursor_signature, Payload, CursorCodec,
}

pub record HistoryCursor : Type 0 where
  pub household_id : ℕ
  pub occurred_on : ℕ
  pub order_key : ℕ
  pub created_at : ℕ
  pub transaction_id : ℕ

-- `_HISTORY_CURSOR_VERSION`
abbrev pub history_cursor_version : ℕ
history_cursor_version = 2

abbrev pub cursor_of : (household_id : ℕ) → Transaction → HistoryCursor
cursor_of household_id t = record {
  household_id = household_id;
  occurred_on = t.occurred_on;
  order_key = t.order_key;
  created_at = t.created_at;
  transaction_id = t.id;
}

-- The fields that are signed, by their keys in the order that `sort_keys` gives.
abbrev pub unsigned_payload : CursorCodec → HistoryCursor → Payload
unsigned_payload codec cursor =
    (text "created_at", string (canonical_created_at codec cursor.created_at))
    ∷ (text "household_id", string (codec.id_text cursor.household_id))
    ∷ (text "id", string (codec.id_text cursor.transaction_id))
    ∷ (text "occurred_on", string (codec.date_isoformat cursor.occurred_on))
    ∷ (text "order_key", number cursor.order_key)
    ∷ (text "v", number history_cursor_version)
    ∷ []

-- The payload with the signature, whose key stands before the last.
abbrev pub signed_payload : CursorCodec → HistoryCursor → Payload
signed_payload codec cursor =
    (text "created_at", string (canonical_created_at codec cursor.created_at))
    ∷ (text "household_id", string (codec.id_text cursor.household_id))
    ∷ (text "id", string (codec.id_text cursor.transaction_id))
    ∷ (text "occurred_on", string (codec.date_isoformat cursor.occurred_on))
    ∷ (text "order_key", number cursor.order_key)
    ∷ (text "sig", string (history_cursor_signature codec (unsigned_payload codec cursor)))
    ∷ (text "v", number history_cursor_version)
    ∷ []

-- `_encode_history_cursor`
unfoldable pub encode_history_cursor : CursorCodec → Transaction → (household_id : ℕ) → Text
unfolding rstrip_padding replace
encode_history_cursor codec transaction household_id =
    let payload = signed_payload codec (cursor_of household_id transaction) in
    rstrip_padding (codec.b64encode (codec.dumps payload))

-- The cursor of the fields, if each of them could be read.
abbrev pub cursor_of_fields :
    (household_id : ℕ)
    → (occurred_on order_key created_at transaction_id : Option ℕ) → Option HistoryCursor
cursor_of_fields household_id (some occurred_on) (some order_key) (some created_at)
      (some transaction_id) =
    some (record {
      household_id = household_id;
      occurred_on = occurred_on;
      order_key = order_key;
      created_at = created_at;
      transaction_id = transaction_id;
    })
cursor_of_fields household_id occurred_on order_key created_at transaction_id = none

-- An empty text is no id; a text that is not empty is taken for the id whose text it is.
abbrev pub transaction_id_of : CursorCodec → Text → Option ℕ
transaction_id_of codec s = if is_empty s then none else codec.id_of_text s

abbrev pub read_fields : CursorCodec → (household_id : ℕ) → Payload → Option HistoryCursor
read_fields codec household_id payload =
    cursor_of_fields household_id
      (codec.date_fromisoformat (str_or_empty codec (get (text "occurred_on") payload)))
      (int_of codec (get (text "order_key") payload))
      (codec.datetime_fromisoformat
        (replace (text "Z") (text "+00:00") (str_or_empty codec (get (text "created_at") payload))))
      (transaction_id_of codec (strip (str_or_empty codec (get (text "id") payload))))

-- The signature of the other items, the version and the household are tested, in this order.
abbrev pub accepted_cursor : CursorCodec → (household_id : ℕ) → Payload → Option HistoryCursor
accepted_cursor codec household_id payload =
    let supplied_sig = str_or_empty codec (get (text "sig") payload) in
    let expected_sig = history_cursor_signature codec (unsigned payload) in
    if is_empty supplied_sig || not (supplied_sig == expected_sig)
    then none
    else if not (int_or_zero codec (get (text "v") payload) == some history_cursor_version)
    then none
    else if not
        (str_or_empty codec (get (text "household_id") payload) == codec.id_text household_id)
    then none
    else read_fields codec household_id payload

abbrev pub read_object : CursorCodec → Option Text → Option Payload
read_object codec none = none
read_object codec (some s) = codec.loads s

abbrev pub accepted_payload :
    CursorCodec → (household_id : ℕ) → Option Payload → Option HistoryCursor
accepted_payload codec household_id none = none
accepted_payload codec household_id (some payload) = accepted_cursor codec household_id payload

-- `_decode_history_cursor`; every failure is the same error.
unfoldable pub decode_history_cursor :
    CursorCodec → (raw_cursor : Text) → (household_id : ℕ) → Option HistoryCursor
unfolding strip padded get replace
decode_history_cursor codec raw_cursor household_id =
    let normalized = strip raw_cursor in
    if is_empty normalized
    then none
    else accepted_payload codec household_id
        (read_object codec (codec.b64decode (padded normalized)))

-- `_older_than_cursor`
unfoldable pub older_than_cursor : HistoryCursor → Transaction → Bool
older_than_cursor cursor t =
    ltb t.occurred_on cursor.occurred_on
    || (t.occurred_on == cursor.occurred_on && ltb t.order_key cursor.order_key)
    || (t.occurred_on == cursor.occurred_on
        && t.order_key == cursor.order_key
        && ltb t.created_at cursor.created_at)
    || (t.occurred_on == cursor.occurred_on
        && t.order_key == cursor.order_key
        && t.created_at == cursor.created_at
        && ltb t.id cursor.transaction_id)

-- `_newer_than_cursor`
unfoldable pub newer_than_cursor : HistoryCursor → Transaction → Bool
newer_than_cursor cursor t =
    ltb cursor.occurred_on t.occurred_on
    || (t.occurred_on == cursor.occurred_on && ltb cursor.order_key t.order_key)
    || (t.occurred_on == cursor.occurred_on
        && t.order_key == cursor.order_key
        && ltb cursor.created_at t.created_at)
    || (t.occurred_on == cursor.occurred_on
        && t.order_key == cursor.order_key
        && t.created_at == cursor.created_at
        && ltb cursor.transaction_id t.id)

-- `_history_ordering_asc`: by day, then as within a day; `_history_ordering_desc` is the converse.
abbrev pub leq_history : Transaction → Transaction → Bool
leq_history a b =
    if ltb a.occurred_on b.occurred_on
    then true
    else if ltb b.occurred_on a.occurred_on
    then false
    else leq_same_day a b

abbrev pub geq_history : Transaction → Transaction → Bool
geq_history a b = leq_history b a
