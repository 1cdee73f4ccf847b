-- ===== src/Prelude/Outcome.antt =====
-- What a C function leaves: a result, or a process stopped by `assert`.

use mathlib.Core.Path.{◌≡◌, refl}
use mathlib.Core.Logic.{◌≢◌}
use mathlib.Core.Option.{Option, none, some}

pub data Run {ℓ} (A : Type ℓ) : Type ℓ where
  done : A → Run A
  abort : Run A

infixl 5 ◌>>=◌
abbrev pub ◌>>=◌ {ℓ κ} : {A : Type ℓ} {B : Type κ} → Run A → (A → Run B) → Run B
done a >>= f = f a
abort >>= f = abort

pub abort-ne-done {ℓ} : {A : Type ℓ} {a : A} → abort ≢ done a
abort-ne-done h = cc

pub done_inj {ℓ} : {A : Type ℓ} {a b : A} → done a ≡ done b → a ≡ b
done_inj h = cc

pub refused-ne-done {ℓ} : {A : Type ℓ} {o : Option A} {a : A} → o ≡ none → done o ≢ done (some a)
refused-ne-done e h = cc

pub done-some_inj {ℓ} : {A : Type ℓ} {a b : A} → done (some a) ≡ done (some b) → a ≡ b
done-some_inj h = cc

-- A sequence that is done was done in both parts.
pub bind-done {ℓ κ} :
    {A : Type ℓ} {B : Type κ} (r : Run A) (f : A → Run B) {b : B}
    → (r >>= f) ≡ done b
    → (a : A) × (r ≡ done a) × (f a ≡ done b)
bind-done (done a) f h = (a, refl, h)
bind-done abort f h = absurd (abort-ne-done h)
