-- ===== src/Common/Fallible.antt =====
-- Results with an error value.
use mathlib.Core.Path.{◌≡◌, refl}
use mathlib.Core.Logic.{◌↔◌}
use mathlib.Core.Bool.{Bool, true, false}
use mathlib.Core.Option.{Option, none, some}
use go_ring.Common.Tests.{if◌then◌else◌}

pub data Result {ℓ κ} (E : Type ℓ) (A : Type κ) : Type (ℓ ⊔ κ) where
  ok : A → Result E A
  err : E → Result E A

infixl 5 ◌>>=◌ ◌>>◌
abbrev pub ◌>>=◌ {ℓ κ ι} :
    {E : Type ℓ} {A : Type κ} {B : Type ι} → Result E A → (A → Result E B) → Result E B
ok a >>= f = f a
err e >>= f = err e

abbrev pub ◌>>◌ {ℓ κ} : {E : Type ℓ} {B : Type κ} → Result E (Unit {0}) → Result E B → Result E B
m >> k = m >>= λ _. k

abbrev pub guard {ℓ} : {E : Type ℓ} → Bool → E → Result E (Unit {0})
guard true e = ok tt
guard false e = err e

abbrev pub or_fail {ℓ κ} : {E : Type ℓ} {A : Type κ} → Option A → E → Result E A
or_fail none e = err e
or_fail (some a) e = ok a

pub bind-eq-ok {ℓ κ ι} :
    {E : Type ℓ} {A : Type κ} {B : Type ι} (m : Result E A) (f : A → Result E B) {b : B}
    → (m >>= f) ≡ ok b
    → (a : A) × (m ≡ ok a) × (f a ≡ ok b)
bind-eq-ok (ok a) f h = (a, refl, h)
bind-eq-ok (err e) f h = cc

pub guard_iff {ℓ κ} :
    {E : Type ℓ} {B : Type κ} (b : Bool) (e : E) (k : Result E B) {a : B}
    → ((guard b e >> k) ≡ ok a) ↔ ((b ≡ true) × (k ≡ ok a))
guard_iff true e k = (λ h. (refl, h), λ h. h.1)
guard_iff false e k = (λ h. cc, λ h. cc)

-- The same in continuation form: what an accepted step of a chain gives, for the rest of the proof.
module _ {ℓ κ ι} {E : Type ℓ} {B : Type κ} {C : Type ι} where
  pub bind-ok_cases {υ} :
      {A : Type υ} (m : Result E A) (f : A → Result E B) {b : B}
      → (m >>= f) ≡ ok b
      → ((a : A) → m ≡ ok a → f a ≡ ok b → C)
      → C
  bind-ok_cases (ok a) f h k = k a refl h
  bind-ok_cases (err e) f h k = absurd (cc)

  pub or_fail-ok_cases {υ} :
      {A : Type υ} (o : Option A) (e : E) (f : A → Result E B) {b : B}
      → (or_fail o e >>= f) ≡ ok b
      → ((a : A) → o ≡ some a → f a ≡ ok b → C)
      → C
  or_fail-ok_cases (some a) e f h k = k a refl h
  or_fail-ok_cases none e f h k = absurd (cc)

  pub or_fail-some_cases :
      (o : Option B) (e : E) {b : B} → or_fail o e ≡ ok b → (o ≡ some b → C) → C
  or_fail-some_cases (some a) e h k = k (cc)
  or_fail-some_cases none e h k = absurd (cc)

  pub if-ok_cases :
      (c : Bool) (m n : Result E B) {b : B}
      → (if c then m else n) ≡ ok b
      → (m ≡ ok b → C)
      → (n ≡ ok b → C)
      → C
  if-ok_cases true m n h k l = k h
  if-ok_cases false m n h k l = l h

  pub guard-ok_cases :
      (c : Bool) (e : E) (m : Result E B) {b : B}
      → (guard c e >> m) ≡ ok b
      → (c ≡ true → m ≡ ok b → C)
      → C
  guard-ok_cases true e m h k = k refl h
  guard-ok_cases false e m h k = absurd (cc)

pub ok-injective {ℓ κ} :
    {E : Type ℓ} {A : Type κ} {a b : A} → ◌≡◌ {A = Result E A} (ok a) (ok b) → a ≡ b
ok-injective h = cc
