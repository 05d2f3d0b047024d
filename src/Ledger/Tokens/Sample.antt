-- ===== src/Ledger/Tokens/Sample.antt =====
-- A small stand-in for the standard library with which the cursors of transactions.py can be tried out:
-- characters are shifted out of the way of the separators.
use money_flow_service.Prelude.{
  ◌∙◌, length, map, nat_eq, ◌++◌, ◌+◌, ◌-◌, ◌%◌, ◌==◌, [], ◌∷◌, false, none, some, ◌≡◌, refl, ap,
  arith, ℕ, Option,
}
use money_flow_service.Ledger.Tokens.{
  CursorCodec, Payload, JsonValue, null, number, string, padding, rstrip_padding,
}
use money_flow_service.Ledger.Tokens.Texts.{rstrip_padding-append}
use money_flow_service.Ledger.Tokens.Laws.{IsCodec}
use Prim.Native.Nat.{zero, suc}
use money_flow_service.Prelude.Text.{is_empty, is_space, text, Text}
use money_flow_service.Prelude.Tables.{exists}
use mathlib.Core.List.{append-nil}

-- The last value and the characters before it are read from the right.
pub record Reading : Type 0 where
  pub characters : Text
  pub value : JsonValue
  pub items : Payload

abbrev pub head_or_zero : Text → ℕ
head_or_zero [] = 0
head_or_zero (c ∷ cs) = c

abbrev pub read_code : ℕ → Reading → Reading
read_code zero r = record {
  characters = [];
  value = null;
  items = (r.characters, r.value) ∷ r.items;
}
read_code (suc zero) r = record r { characters = []; value = null }
read_code (suc (suc zero)) r = record r {
  characters = [];
  value = number (head_or_zero r.characters);
}
read_code (suc (suc (suc zero))) r = record r { characters = []; value = string r.characters }
read_code (suc (suc (suc (suc c)))) r = record r { characters = c ∷ r.characters }

unfoldable pub read : Text → Reading
read [] = record { characters = []; value = null; items = [] }
read (c ∷ cs) = read_code c (read cs)

abbrev shift : ℕ → Text → Text
shift k cs = map (λ c. k + c) cs

abbrev raise_code : ℕ → ℕ
raise_code c = suc (suc (suc (suc c)))

abbrev raise_codes : Text → Text
raise_codes cs = map raise_code cs

abbrev written_value : JsonValue → Text
written_value null = 1 ∷ []
written_value (number n) = 2 ∷ raise_code n ∷ []
written_value (string s) = 3 ∷ raise_codes s

abbrev written_items : Payload → Text
written_items [] = []
written_items ((key, value) ∷ items) =
    0 ∷ (raise_codes key ++ (written_value value ++ written_items items))

read-shift :
    (s rest : Text)
    → read (raise_codes s ++ rest) ≡ record (read rest) { characters = s ++ (read rest).characters }
unfolding read
read-shift [] rest = refl
read-shift (c ∷ cs) rest = rw (read-shift cs rest) refl

read-value :
    (value : JsonValue) (rest : Text)
    → (read rest).characters ≡ []
    → read (written_value value ++ rest)
      ≡ record { characters = []; value = value; items = (read rest).items }
unfolding read
read-value null rest h = refl
read-value (number n) rest h = refl
read-value (string s) rest h = rw (read-shift s rest, h, append-nil s) refl

read-items :
    (items : Payload)
    → ((read (written_items items)).characters ≡ []) × ((read (written_items items)).items ≡ items)
unfolding read
read-items [] = (refl, refl)
read-items ((key, value) ∷ items) =
    let rest = read-items items in
    let valued = read-value value (written_items items) rest.0 in
    let keyed =
      read-shift key (written_value value ++ written_items items)
      ∙ ap (λ (r : Reading). record r { characters = key ++ r.characters }) valued in
    (
      refl,
      (ap (λ (r : Reading). (r.characters, r.value) ∷ r.items) keyed
          ∙ rw (append-nil key, rest.1) refl),
    )

abbrev shift_back : Text → Text
shift_back cs = map (λ c. c - 100000) cs

shift_back-shift : (s : Text) → shift_back (shift 100000 s) ≡ s
shift_back-shift [] = refl
shift_back-shift (c ∷ cs) =
    let same : 100000 + c - 100000 ≡ c = omega arith in rw (same, shift_back-shift cs) refl

high-unspaced : (c : ℕ) → is_space (100000 + c) ≡ false
unfolding is_space
high-unspaced c = ground arith

shift-unspaced : (s : Text) → exists is_space (shift 100000 s) ≡ false
unfolding exists
shift-unspaced [] = refl
shift-unspaced (c ∷ cs) = rw (high-unspaced c) (shift-unspaced cs)

shift-unpadded : (s : Text) → exists (λ c. c == b'=') (shift 100000 s) ≡ false
unfolding exists
shift-unpadded [] = refl
shift-unpadded (c ∷ cs) =
    let other : (100000 + c == b'=') ≡ false = ground arith in rw other (shift-unpadded cs)

abbrev pads_of : Text → ℕ
pads_of s = (4 - length s % 4) % 4

abbrev encoded : Text → Text
encoded s = shift 100000 s ++ padding (pads_of (shift 100000 s))

abbrev pub read_one : Text → Option ℕ
read_one [] = none
read_one (c ∷ cs) = some (c - 100000)

abbrev pub sample_codec : CursorCodec
sample_codec = record {
  dumps = λ payload. 1 ∷ written_items payload;
  loads = λ s. some (read s).items;
  b64encode = encoded;
  b64decode = λ s. some (shift_back (rstrip_padding s));
  hmac = λ s. text "s";
  date_isoformat = λ day. (100000 + day) ∷ [];
  date_fromisoformat = read_one;
  datetime_isoformat = λ instant. (100000 + instant) ∷ text "+00:00";
  datetime_fromisoformat = read_one;
  int = λ s. none;
  str = λ n. n ∷ [];
  id_text = λ id. (100000 + id) ∷ [];
  id_of_text = read_one;
}

decode-encoded : (s : Text) → shift_back (rstrip_padding (encoded s)) ≡ s
decode-encoded s =
    let stripped =
      rstrip_padding-append (shift 100000 s) (pads_of (shift 100000 s)) (shift-unpadded s) in
    rw stripped (shift_back-shift s)

read_one-shift : (n : ℕ) → some (100000 + n - 100000) ≡ some n
read_one-shift n = ap some (omega arith)

is_empty-shift : (s : Text) → is_empty s ≡ false → is_empty (shift 100000 s) ≡ false
is_empty-shift [] h = h
is_empty-shift (c ∷ cs) h = refl

pub sample_codec-IsCodec : IsCodec sample_codec
unfolding read exists
sample_codec-IsCodec = record {
  loads-dumps = λ payload h. ap some (read-items payload).1;
  is_empty-dumps = λ payload. refl;
  b64decode-b64encode = λ s. ap some (decode-encoded s);
  b64encode-IsBase64 = λ s h. record {
    letters = shift 100000 s;
    pads = pads_of (shift 100000 s);
    split = refl;
    few = omega arith;
    whole = omega arith;
    unpadded = shift-unpadded s;
    unspaced = shift-unspaced s;
    filled = is_empty-shift s h;
  };
  is_empty-hmac = λ s. refl;
  date_fromisoformat-isoformat = read_one-shift;
  datetime_fromisoformat-isoformat = read_one-shift;
  datetime_isoformat-IsUtc = λ instant. record {
    clock = (100000 + instant) ∷ [];
    split = refl;
    no_plus = ground arith;
    no_z = ground arith;
  };
  id_of_text-id_text = read_one-shift;
  id_text-unspaced = λ id. rw (high-unspaced id) refl;
  is_empty-id_text = λ id. refl;
}
