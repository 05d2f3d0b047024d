-- ===== src/Prelude/Text/Case.antt =====
-- Case mapping and stripping together: a text in lower case stays one.
use money_flow_service.Prelude.{refl, inr, inl, Bool-cases, arith, [], ℕ, ◌≡◌, ◌∷◌}
use money_flow_service.Prelude.Text.{
  rstrip_after, is_space, rstrip, Text, lstrip, strip, lower_char, lower,
}

-- The text is in lower case.
abbrev pub IsLower : Text → Type 0
IsLower [] = Unit
IsLower (c ∷ cs) = (lower_char c ≡ c) × IsLower cs

lower_char-lower_char : (c : ℕ) → lower_char (lower_char c) ≡ lower_char c
unfolding lower_char
lower_char-lower_char c = ground arith

lower-IsLower : (s : Text) → IsLower (lower s)
unfolding lower
lower-IsLower [] = tt
lower-IsLower (c ∷ cs) = (lower_char-lower_char c, lower-IsLower cs)

lower_lem : (s : Text) → IsLower s → lower s ≡ s
unfolding lower
lower_lem [] h = refl
lower_lem (c ∷ cs) h = cc (h.0, lower_lem cs h.1)

lstrip-IsLower : (s : Text) → IsLower s → IsLower (lstrip s)
unfolding lstrip
lstrip-IsLower [] h = tt
lstrip-IsLower (c ∷ cs) h = elim (Bool-cases (is_space c)) [
  | inl e ↦ rw e (lstrip-IsLower cs h.1)
  | inr e ↦ rw e h
]

rstrip_after-IsLower :
    (c : ℕ) (rest : Text) → lower_char c ≡ c → IsLower rest → IsLower (rstrip_after c rest)
rstrip_after-IsLower c [] e h = elim (Bool-cases (is_space c)) [
  | inl b ↦ rw b tt
  | inr b ↦ rw b (e, tt)
]
rstrip_after-IsLower c (d ∷ ds) e h = (e, h)

rstrip-IsLower : (s : Text) → IsLower s → IsLower (rstrip s)
unfolding rstrip
rstrip-IsLower [] h = tt
rstrip-IsLower (c ∷ cs) h = rstrip_after-IsLower c (rstrip cs) h.0 (rstrip-IsLower cs h.1)

-- Lowering again after stripping changes nothing.
pub lower-strip-lower : (s : Text) → lower (strip (lower s)) ≡ strip (lower s)
unfolding strip
lower-strip-lower s = lower_lem _ (rstrip-IsLower _ (lstrip-IsLower _ (lower-IsLower s)))
