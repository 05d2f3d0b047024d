-- ===== src/Ledger/History/Cursors.antt =====
-- transactions.py: reading a cursor that `_encode_history_cursor` has made.
use money_flow_service.Prelude.{
  arith, inl, inr, Bool-cases, sym, ◌∙◌, ap, refl, nat_eq, none, false, ◌==◌, if◌then◌else◌, ℕ,
  some, ◌≡◌, true,
}
use money_flow_service.Ledger.Cursor.{
  unsigned_payload, signed_payload, read_fields, accepted_cursor, HistoryCursor, cursor_of,
  encode_history_cursor, decode_history_cursor,
}
use money_flow_service.Ledger.Tokens.{
  history_cursor_signature, CursorCodec, get, padded, rstrip_padding,
}
use money_flow_service.Prelude.Tables.{select}
use money_flow_service.Ledger.Tokens.Texts.{rstrip_padding-append, padded-eq, strip-unspaced}
use money_flow_service.Ledger.Tokens.Laws.{IsCodec, id_text-beq, replace-canonical_created_at}
use money_flow_service.Prelude.Text.{text_beq_iff, text_beq, is_empty}
use money_flow_service.Models.{Transaction}

module _ (codec : CursorCodec) (is_codec : IsCodec codec) where
  read_fields-signed_payload :
      (asking_id : ℕ) (cursor : HistoryCursor)
      → read_fields codec asking_id (signed_payload codec cursor)
        ≡ some (record cursor { household_id = asking_id })
  unfolding get
  read_fields-signed_payload asking_id cursor =
      rw
        (
          is_codec.date_fromisoformat-isoformat cursor.occurred_on,
          replace-canonical_created_at codec is_codec cursor.created_at,
          is_codec.datetime_fromisoformat-isoformat cursor.created_at,
          strip-unspaced (codec.id_text cursor.transaction_id)
              (is_codec.id_text-unspaced cursor.transaction_id),
          is_codec.is_empty-id_text cursor.transaction_id,
          is_codec.id_of_text-id_text cursor.transaction_id,
        )
        refl

  accepted_cursor-signed_payload :
      (asking_id : ℕ) (cursor : HistoryCursor)
      → accepted_cursor codec asking_id (signed_payload codec cursor)
        ≡ (if cursor.household_id == asking_id then some cursor else none)
  unfolding get select
  accepted_cursor-signed_payload asking_id cursor =
      let sig = history_cursor_signature codec (unsigned_payload codec cursor) in
      let own : text_beq sig sig ≡ true = (text_beq_iff sig sig).1 refl in
      let filled : is_empty sig ≡ false =
        is_codec.is_empty-hmac (codec.dumps (unsigned_payload codec cursor)) in
      let household = id_text-beq codec is_codec cursor.household_id asking_id in
      elim (Bool-cases (cursor.household_id == asking_id)) [
        | inr e ↦ rw (filled, own, household, e) refl
        | inl e ↦
            let same : asking_id ≡ cursor.household_id = ground arith in
            rw (filled, own, household, e)
              (read_fields-signed_payload asking_id cursor
                ∙ ap (λ i. some (record cursor { household_id = i })) same)
      ]

  -- A token is the letters of the Base64 of its payload.
  decode_signed_payload :
      (cursor : HistoryCursor) (asking_id : ℕ)
      → decode_history_cursor codec
          (rstrip_padding (codec.b64encode (codec.dumps (signed_payload codec cursor))))
          asking_id
        ≡ accepted_cursor codec asking_id (signed_payload codec cursor)
  unfolding decode_history_cursor
  decode_signed_payload cursor asking_id =
      let payload = signed_payload codec cursor in
      let json = codec.dumps payload in
      let base = is_codec.b64encode-IsBase64 json (is_codec.is_empty-dumps payload) in
      let token : rstrip_padding (codec.b64encode json) ≡ base.letters =
        ap rstrip_padding base.split ∙ rstrip_padding-append base.letters base.pads base.unpadded in
      let restored : padded base.letters ≡ codec.b64encode json =
        padded-eq base.letters base.pads base.few base.whole ∙ sym base.split in
      rw
        (
          token,
          strip-unspaced base.letters base.unspaced,
          base.filled,
          restored,
          is_codec.b64decode-b64encode json,
          is_codec.loads-dumps payload refl,
        )
        refl

-- If the standard library does what is documented, the cursor of a transaction that a household was
-- given is read back for that household as the place of the transaction, and is refused for any other.
pub decode-encode_history_cursor :
    (codec : CursorCodec) (t : Transaction) (household_id asking_id : ℕ)
    → IsCodec codec
    → decode_history_cursor codec (encode_history_cursor codec t household_id) asking_id
      ≡ (if household_id == asking_id then some (cursor_of household_id t) else none)
unfolding encode_history_cursor
decode-encode_history_cursor codec t household_id asking_id is_codec =
    decode_signed_payload codec is_codec (cursor_of household_id t) asking_id
    ∙ accepted_cursor-signed_payload codec is_codec asking_id (cursor_of household_id t)

pub token-is_empty :
    (codec : CursorCodec) (t : Transaction) (household_id : ℕ)
    → IsCodec codec
    → is_empty (encode_history_cursor codec t household_id) ≡ false
unfolding encode_history_cursor
token-is_empty codec t household_id is_codec =
    let payload = signed_payload codec (cursor_of household_id t) in
    let base =
      is_codec.b64encode-IsBase64 (codec.dumps payload) (is_codec.is_empty-dumps payload) in
    rw (base.split, rstrip_padding-append base.letters base.pads base.unpadded) base.filled
