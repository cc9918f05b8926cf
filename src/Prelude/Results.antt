-- ===== src/Prelude/Results.antt =====
-- `Result` of Rust, with its operator `?` as bind.
use mathlib.Core.Path.{◌≡◌, refl, ap}

pub data Result (E A : Type 0) : Type 0 where
  ok : A → Result E A
  error : E → Result E A

infixl 5 ◌>>=◌
abbrev pub ◌>>=◌ : {E A B : Type 0} → Result E A → (A → Result E B) → Result E B
ok a >>= f = f a
error e >>= f = error e

-- The value of a success, or the other value.
value_or : {E A : Type 0} → A → Result E A → A
value_or a (ok b) = b
value_or a (error e) = a

pub ok-inj : {E A : Type 0} (a b : A) → ◌≡◌ {A = Result E A} (ok a) (ok b) → a ≡ b
unfolding value_or
ok-inj a b e = ap (value_or a) e

pub error-ne-ok : {E A : Type 0} (e : E) (a : A) → ¬ (◌≡◌ {A = Result E A} (error e) (ok a))
error-ne-ok e a same = cc

-- A chain succeeds only where both of its parts do.
pub bind-ok :
    {E A B : Type 0} (r : Result E A) (f : A → Result E B) (b : B)
    → (r >>= f) ≡ ok b
    → (a : A) × (r ≡ ok a) × (f a ≡ ok b)
bind-ok (ok a) f b same = (a, refl, same)
bind-ok (error e) f b same = absurd (error-ne-ok e b same)
