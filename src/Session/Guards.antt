-- ===== src/Session/Guards.antt =====
-- A guard lets a request go on or raises, and leaves the session as it was.
use money_flow_service.Session.{◌>>=◌, Outcome, raise_if, ◌>>◌, Session, Handler, ok, raised, pure}
use money_flow_service.Prelude.{refl, false, ◌⊎◌, ◌≡◌, true, inr, if◌then◌else◌, Bool, inl}
use money_flow_service.Errors.{AppError}
use money_flow_service.Session.Keeps.{Keeps}
use money_flow_service.Models.{Database}

abbrev pub IsGuard : Handler Unit → Type 0
IsGuard m = (s : Session) → (m s ≡ (ok tt, s)) ⊎ ((e : AppError) × (m s ≡ (raised e, s)))

pub IsGuard-pure : IsGuard (pure tt)
IsGuard-pure s = inl refl

pub IsGuard-raise_if : (b : Bool) (e : AppError) → IsGuard (raise_if b e)
IsGuard-raise_if true e s = inr (e, refl)
IsGuard-raise_if false e s = inl refl

pub IsGuard-if :
    (b : Bool) (m n : Handler Unit) → IsGuard m → IsGuard n → IsGuard (if b then m else n)
IsGuard-if true m n hm hn = hm
IsGuard-if false m n hm hn = hn

pub IsGuard-then : (m n : Handler Unit) → IsGuard m → IsGuard n → IsGuard (m >> n)
IsGuard-then m n hm hn s = elim (hm s) [
  | inl h ↦ elim (hn s) [ inl k ↦ inl (rw h k) | inr (e, k) ↦ inr (e, rw h k) ]
  | inr (e, h) ↦ inr (e, rw h refl)
]

pub IsGuard-Keeps : (Inv : Database → Type 0) (m : Handler Unit) → IsGuard m → Keeps Inv m
IsGuard-Keeps Inv m hm s h = elim (hm s) [ inl k ↦ rw k h | inr (e, k) ↦ rw k h ]

-- A request that comes to an answer has passed its guard.
pub guard_passed :
    {A : Type 0} (m : Handler Unit) (n : Handler A) (s s' : Session) (a : A)
    → IsGuard m
    → (m >> n) s ≡ (ok a, s')
    → n s ≡ (ok a, s')
guard_passed m n s s' a hm h = elim (hm s) [ inl k ↦ rw k at h | inr (e, k) ↦ cc (rw k at h) ]

pub pair-eq : {A : Type 0} {a : A} (r : Outcome A × Session) → r.0 ≡ ok a → r ≡ (ok a, r.1)
pair-eq r h = λ i. (h i, r.1)

pub guard_granted :
    {A : Type 0} (m : Handler Unit) (n : Handler A) (s : Session)
    → m s ≡ (ok tt, s)
    → (m >> n) s ≡ n s
guard_granted m n s h = rw h refl

-- A step that has answered hands its answer on.
pub bind_ok :
    {A B : Type 0} (m : Handler A) (f : A → Handler B) (a : A) (s : Session)
    → m s ≡ (ok a, s)
    → (m >>= f) s ≡ f a s
bind_ok m f a s h = rw h refl
