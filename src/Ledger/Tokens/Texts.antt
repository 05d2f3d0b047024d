-- ===== src/Ledger/Tokens/Texts.antt =====
-- transactions.py: replacing in a text, padding and taking the padding off, one after the other.
use money_flow_service.Ledger.Tokens.{rstrip_padding, padding, padded, replace_after}
use money_flow_service.Prelude.{
  length, nat_eq, ◌++◌, ◌+◌, ◌-◌, ◌%◌, ◌==◌, [], ◌∷◌, false, ◌≡◌, ◌<◌, refl, arith, ap, ℕ,
}
use Prim.Native.Nat.{zero, suc}
use money_flow_service.Prelude.Text.{is_space, lstrip, rstrip, strip, Text}
use money_flow_service.Prelude.Tables.{exists}

-- A text without the first character of what is replaced stays in front of what is replaced.
pub replace-append :
    (a : ℕ) (old new s rest : Text)
    → exists (λ c. a == c) s ≡ false
    → replace_after 0 (a ∷ old) new (s ++ rest) ≡ s ++ replace_after 0 (a ∷ old) new rest
unfolding replace_after exists
replace-append a old new [] rest h = refl
replace-append a old new (c ∷ cs) rest h =
    let (other, others) : ((a == c) ≡ false) × (exists (λ c. a == c) cs ≡ false) = ground arith in
    rw other (ap (λ t. c ∷ t) (replace-append a old new cs rest others))

rstrip_padding-padding : (n : ℕ) → rstrip_padding (padding n) ≡ []
unfolding rstrip_padding padding
rstrip_padding-padding zero = refl
rstrip_padding-padding (suc n) = rw (rstrip_padding-padding n) refl

-- The padding is all that is taken off.
pub rstrip_padding-append :
    (s : Text) (n : ℕ) → exists (λ c. c == b'=') s ≡ false → rstrip_padding (s ++ padding n) ≡ s
unfolding rstrip_padding exists
rstrip_padding-append [] n h = rstrip_padding-padding n
rstrip_padding-append (c ∷ cs) n h =
    let (other, others) : ((c == b'=') ≡ false) × (exists (λ c. c == b'=') cs ≡ false) =
      ground arith in
    rw (other, rstrip_padding-append cs n others) refl

-- The padding that makes the length a multiple of four is the one that is put on.
pub padded-eq : (s : Text) (n : ℕ) → n < 4 → (length s + n) % 4 ≡ 0 → padded s ≡ s ++ padding n
unfolding padded
padded-eq s n few whole =
    let same : (4 - length s % 4) % 4 ≡ n = omega (arith, few, whole) in
    ap (λ k. s ++ padding k) same

rstrip-unspaced : (s : Text) → exists is_space s ≡ false → rstrip s ≡ s
unfolding rstrip exists
rstrip-unspaced [] h = refl
rstrip-unspaced (c ∷ []) h = ground arith
rstrip-unspaced (c ∷ d ∷ cs) h =
    let others : exists is_space (d ∷ cs) ≡ false = ground arith in
    rw (rstrip-unspaced (d ∷ cs) others) refl

-- A text without spaces is left.
pub strip-unspaced : (s : Text) → exists is_space s ≡ false → strip s ≡ s
unfolding strip lstrip exists
strip-unspaced [] h = rstrip-unspaced [] refl
strip-unspaced (c ∷ cs) h =
    let here : is_space c ≡ false = ground arith in rw here (rstrip-unspaced (c ∷ cs) h)
