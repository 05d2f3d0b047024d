-- ===== src/Ledger/History/Examples.antt =====
-- Three transactions of a household, and pages of their history (transactions.py).
use money_flow_service.Ledger.History.Paging.{
  list_transaction_history-newer, list_transaction_history-older,
}
use money_flow_service.Prelude.{true, [], some, none, arith, false, ◌∷◌, ◌≡◌, ℕ, refl}
use money_flow_service.Ledger.Cursor.{encode_history_cursor, decode_history_cursor}
use money_flow_service.Ledger.History.{
  history_page, list_transaction_history, reversed, older, newer,
}
use money_flow_service.Session.{outcome, ok}
use money_flow_service.Ledger.Tokens.Sample.{sample_codec, sample_codec-IsCodec}
use money_flow_service.Ledger.History.Cursors.{decode-encode_history_cursor}
use money_flow_service.Prelude.Text.{text}
use money_flow_service.Ledger.Order.{insert_by, sort_by}
use money_flow_service.Prelude.Tables.{HasUniqueKey, select, count}
use money_flow_service.Models.{empty_database, Transaction, Database, Household, expense}

abbrev entry : (id occurred_on order_key : ℕ) → Transaction
entry id occurred_on order_key = record {
  id = id;
  household_id = 10;
  category_id = none;
  flow_type = expense;
  occurred_on = occurred_on;
  amount = 100;
  installment_months = none;
  currency = text "KRW";
  memo = [];
  order_key = order_key;
  owner_user_id = none;
  owner_name = none;
  source_ref = none;
  version = 1;
  created_by_user_id = some 1;
  created_at = 5;
}

abbrev three : Database
three = record empty_database {
  transactions = entry 1 30 1024 ∷ entry 2 20 2048 ∷ entry 3 20 1024 ∷ [];
}

abbrev home : Household
home = record { id = 10; name = text "Home" }

three-HasUniqueKey : HasUniqueKey (λ (t : Transaction). t.id) three.transactions
unfolding count
three-HasUniqueKey i = ground arith

decode-encode_history_cursor_example :
    decode_history_cursor sample_codec (encode_history_cursor sample_codec (entry 1 30 1024) 10) 11
    ≡ none
decode-encode_history_cursor_example =
    decode-encode_history_cursor sample_codec (entry 1 30 1024) 10 11 sample_codec-IsCodec

list_transaction_history-older_example :
    outcome
      (list_transaction_history sample_codec 40 home
        (some 35)
        older
        (some (encode_history_cursor sample_codec (entry 1 30 1024) 10))
        1)
      three
    ≡ ok (history_page sample_codec 10 35 40 true true (entry 2 20 2048 ∷ []) three)
unfolding sort_by select insert_by reversed
list_transaction_history-older_example =
    list_transaction_history-older sample_codec sample_codec-IsCodec 40 home 35 1 three
      (entry 1 30 1024) [] (entry 2 20 2048 ∷ entry 3 20 1024 ∷ []) three-HasUniqueKey refl

list_transaction_history-newer_example :
    outcome
      (list_transaction_history sample_codec 40 home
        (some 35)
        newer
        (some (encode_history_cursor sample_codec (entry 2 20 2048) 10))
        3)
      three
    ≡ ok (history_page sample_codec 10 35 40 true false (entry 1 30 1024 ∷ []) three)
unfolding sort_by select insert_by reversed
list_transaction_history-newer_example =
    list_transaction_history-newer sample_codec sample_codec-IsCodec 40 home 35 3 three
      (entry 2 20 2048) (entry 3 20 1024 ∷ []) (entry 1 30 1024 ∷ []) three-HasUniqueKey refl
