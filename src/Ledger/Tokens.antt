-- ===== src/Ledger/Tokens.antt =====
-- transactions.py: the texts that a cursor of the history is made of, and Python's functions on them.
-- Of the standard library, what the code calls is in CursorCodec.
pub mod Texts
pub mod Laws
pub mod Sample
use money_flow_service.Prelude.{
  length, nat_eq, ◌++◌, ◌+◌, ◌-◌, ◌%◌, ◌&&◌, ◌==◌, not, [], ◌∷◌, none, some, true, false,
  if◌then◌else◌, Bool, List, Option, ℕ,
}
use Prim.Native.Nat.{zero, suc}
use money_flow_service.Prelude.Text.{text, is_empty, text_eq, Text}
use money_flow_service.Prelude.Tables.{select}

-- A value of a JSON object. A token with a value of another kind was not issued: its signature is
-- wrong, and so it has no payload here.
pub data JsonValue : Type 0 where
  null : JsonValue
  number : ℕ → JsonValue
  string : Text → JsonValue

-- A dict, by its items
abbrev pub Payload : Type 0
Payload = List (Text × JsonValue)

-- `json.dumps(..., ensure_ascii=False, sort_keys=True, separators=(",", ":"))` and `json.loads` of an
-- object; `base64.urlsafe_b64encode` of the UTF-8 of a text, and the decoder with the text of its
-- bytes; the hexadecimal HMAC-SHA256 of a text by the secret key; `isoformat` and `fromisoformat` of a
-- day and of an instant in UTC; `int` of a text and `str` of a number; and the UUID text of an id.
pub record CursorCodec : Type 0 where
  pub dumps : Payload → Text
  pub loads : Text → Option Payload
  pub b64encode : Text → Text
  pub b64decode : Text → Option Text
  pub hmac : Text → Text
  pub date_isoformat : ℕ → Text
  pub date_fromisoformat : Text → Option ℕ
  pub datetime_isoformat : ℕ → Text
  pub datetime_fromisoformat : Text → Option ℕ
  pub int : Text → Option ℕ
  pub str : ℕ → Text
  pub id_text : ℕ → Text
  pub id_of_text : Text → Option ℕ

-- `payload.get(key)`
unfoldable pub get : Text → Payload → Option JsonValue
get key [] = none
get key ((k, value) ∷ items) = if k == key then some value else get key items

-- `{key: value for key, value in payload.items() if key != "sig"}`
abbrev pub unsigned : Payload → Payload
unsigned payload = select (λ (item : Text × JsonValue). not (item.0 == text "sig")) payload

-- `str(value or "")`
abbrev pub str_or_empty : CursorCodec → Option JsonValue → Text
str_or_empty codec none = []
str_or_empty codec (some null) = []
str_or_empty codec (some (number zero)) = []
str_or_empty codec (some (number (suc n))) = codec.str (suc n)
str_or_empty codec (some (string s)) = s

-- `int(value)`
abbrev pub int_of : CursorCodec → Option JsonValue → Option ℕ
int_of codec none = none
int_of codec (some null) = none
int_of codec (some (number n)) = some n
int_of codec (some (string s)) = codec.int s

-- `int(value or 0)`
abbrev pub int_or_zero : CursorCodec → Option JsonValue → Option ℕ
int_or_zero codec none = some 0
int_or_zero codec (some null) = some 0
int_or_zero codec (some (number n)) = some n
int_or_zero codec (some (string [])) = some 0
int_or_zero codec (some (string (c ∷ cs))) = codec.int (c ∷ cs)

abbrev pub starts_with : Text → Text → Bool
starts_with [] s = true
starts_with (a ∷ old) [] = false
starts_with (a ∷ old) (c ∷ cs) = a == c && starts_with old cs

-- `s.replace(old, new)`, after the rest of an occurrence that was replaced
unfoldable pub replace_after : (rest : ℕ) → (old new : Text) → Text → Text
replace_after rest old new [] = []
replace_after (suc rest) old new (c ∷ cs) = replace_after rest old new cs
replace_after zero old new (c ∷ cs) =
    let replaced = new ++ replace_after (length old - 1) old new cs in
    let kept = c ∷ replace_after 0 old new cs in if starts_with old (c ∷ cs) then replaced else kept

unfoldable pub replace : (old new : Text) → Text → Text
unfolding replace_after
replace old new s = replace_after 0 old new s

-- `"=" * n`
unfoldable pub padding : ℕ → Text
padding zero = []
padding (suc n) = b'=' ∷ padding n

-- `normalized + ("=" * (-len(normalized) % 4))`
unfoldable pub padded : Text → Text
unfolding padding
padded normalized = normalized ++ padding ((4 - length normalized % 4) % 4)

-- `rstrip("=")`
unfoldable pub rstrip_padding : Text → Text
rstrip_padding [] = []
rstrip_padding (c ∷ cs) =
    let rest = rstrip_padding cs in if c == b'=' && is_empty rest then [] else c ∷ rest

-- `_canonical_created_at` of an instant in UTC
abbrev pub canonical_created_at : CursorCodec → (created_at : ℕ) → Text
canonical_created_at codec created_at =
    replace (text "+00:00") (text "Z") (codec.datetime_isoformat created_at)

-- `_history_cursor_signature`
abbrev pub history_cursor_signature : CursorCodec → Payload → Text
history_cursor_signature codec payload = codec.hmac (codec.dumps payload)
