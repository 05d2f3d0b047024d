-- ===== src/Ledger/Tokens/Laws.antt =====
-- What transactions.py relies on in the standard library when it makes and reads cursors: `json`,
-- `base64`, `hmac`, `datetime`, and that the id of a row is a UUID.
use money_flow_service.Prelude.Text.{text_eq, is_empty, is_space, text, Text, text_beq_iff}
use money_flow_service.Prelude.{
  arith, inr, nat_beq_iff, inl, Bool-cases, length, nat_eq, ltb, ◌++◌, ◌+◌, ◌%◌, ◌&&◌, ◌||◌, ◌==◌,
  [], ◌∷◌, true, false, some, ◌≡◌, ◌<◌, refl, ap, sym, ◌∙◌, Bool, ℕ,
}
use money_flow_service.Ledger.Tokens.{
  replace_after, CursorCodec, Payload, padding, replace, canonical_created_at,
}
use money_flow_service.Ledger.Tokens.Texts.{replace-append}
use money_flow_service.Prelude.Tables.{exists}

abbrev text_ltb : Text → Text → Bool
text_ltb [] [] = false
text_ltb [] (d ∷ ds) = true
text_ltb (c ∷ cs) [] = false
text_ltb (c ∷ cs) (d ∷ ds) = ltb c d || (c == d && text_ltb cs ds)

-- The items stand in the order of their keys, which are different.
abbrev pub keys_increase : Payload → Bool
keys_increase [] = true
keys_increase (item ∷ []) = true
keys_increase ((key, value) ∷ (next_key, next_value) ∷ items) =
    text_ltb key next_key && keys_increase ((next_key, next_value) ∷ items)

-- Base64 of a text that is not empty: letters that are neither padding nor spaces, and at most three
-- characters of padding, which make the length a multiple of four.
pub record IsBase64 (encoded : Text) : Type 0 where
  pub letters : Text
  pub pads : ℕ
  pub split : encoded ≡ letters ++ padding pads
  pub few : pads < 4
  pub whole : (length letters + pads) % 4 ≡ 0
  pub unpadded : exists (λ c. c == b'=') letters ≡ false
  pub unspaced : exists is_space letters ≡ false
  pub filled : is_empty letters ≡ false

-- An instant in UTC as a text: nothing before its offset has a plus or a Z.
pub record IsUtc (written : Text) : Type 0 where
  pub clock : Text
  pub split : written ≡ clock ++ text "+00:00"
  pub no_plus : exists (λ c. b'+' == c) clock ≡ false
  pub no_z : exists (λ c. b'Z' == c) clock ≡ false

pub record IsCodec (codec : CursorCodec) : Type 0 where
  pub loads-dumps :
      (payload : Payload)
      → keys_increase payload ≡ true
      → codec.loads (codec.dumps payload) ≡ some payload
  pub is_empty-dumps : (payload : Payload) → is_empty (codec.dumps payload) ≡ false
  pub b64decode-b64encode : (s : Text) → codec.b64decode (codec.b64encode s) ≡ some s
  pub b64encode-IsBase64 : (s : Text) → is_empty s ≡ false → IsBase64 (codec.b64encode s)
  pub is_empty-hmac : (s : Text) → is_empty (codec.hmac s) ≡ false
  pub date_fromisoformat-isoformat :
      (day : ℕ) → codec.date_fromisoformat (codec.date_isoformat day) ≡ some day
  pub datetime_fromisoformat-isoformat :
      (instant : ℕ) → codec.datetime_fromisoformat (codec.datetime_isoformat instant) ≡ some instant
  pub datetime_isoformat-IsUtc : (instant : ℕ) → IsUtc (codec.datetime_isoformat instant)
  pub id_of_text-id_text : (id : ℕ) → codec.id_of_text (codec.id_text id) ≡ some id
  pub id_text-unspaced : (id : ℕ) → exists is_space (codec.id_text id) ≡ false
  pub is_empty-id_text : (id : ℕ) → is_empty (codec.id_text id) ≡ false

module _ (codec : CursorCodec) (is_codec : IsCodec codec) where
  -- Replacing the offset by Z, and Z by the offset, gives the instant as it was written.
  pub replace-canonical_created_at :
      (instant : ℕ)
      → replace (text "Z") (text "+00:00") (canonical_created_at codec instant)
        ≡ codec.datetime_isoformat instant
  unfolding replace replace_after
  replace-canonical_created_at instant =
      let utc = is_codec.datetime_isoformat-IsUtc instant in
      let there =
        replace-append b'+' (text "00:00") (text "Z") utc.clock (text "+00:00") utc.no_plus in
      let back = replace-append b'Z' [] (text "+00:00") utc.clock (text "Z") utc.no_z in
      rw (utc.split, there, back) refl

  -- Ids have the same text only if they are the same.
  pub id_text-beq : (i j : ℕ) → (codec.id_text i == codec.id_text j) ≡ (i == j)
  id_text-beq i j = elim (Bool-cases (i == j)) [
    | inl e ↦
        let same : i ≡ j = (nat_beq_iff i j).0 e in
        rw e ((text_beq_iff (codec.id_text i) (codec.id_text j)).1 (ap codec.id_text same))
    | inr e ↦ elim (Bool-cases (codec.id_text i == codec.id_text j)) [
      | inr d ↦ rw (d, e) refl
      | inl d ↦
          let texts : codec.id_text i ≡ codec.id_text j =
            (text_beq_iff (codec.id_text i) (codec.id_text j)).0 d in
          let ids : some i ≡ some j =
            sym (is_codec.id_of_text-id_text i)
            ∙ ap codec.id_of_text texts
            ∙ is_codec.id_of_text-id_text j in
          let same : i ≡ j = cc in ground arith
    ]
  ]
