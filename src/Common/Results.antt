-- ===== src/Common/Results.antt =====
-- Answers that may be an exception, for services with exceptions of their own.
use monqom.Common.{◌≡◌, refl, Bool, true, false, Option, none, some}

pub data Outcome (E : Type 0) (A : Type 0) : Type 0 where
  ok : A → Outcome E A
  err : E → Outcome E A

infixl 5 ◌>>=◌ ◌>>◌
abbrev pub ◌>>=◌ : {E A B : Type 0} → Outcome E A → (A → Outcome E B) → Outcome E B
ok a >>= k = k a
err e >>= k = err e

abbrev pub ◌>>◌ : {E B : Type 0} → Outcome E (Unit {0}) → Outcome E B → Outcome E B
m >> k = m >>= λ _. k

abbrev pub throw_if : {E : Type 0} → Bool → E → Outcome E (Unit {0})
throw_if true e = err e
throw_if false e = ok tt

abbrev pub or_throw : {E A : Type 0} → Option A → E → Outcome E A
or_throw none e = err e
or_throw (some a) e = ok a

-- What a chain that ends well went through.
pub >>=-eq-ok :
    {E A B : Type 0} (m : Outcome E A) (k : A → Outcome E B) {b : B}
    → (m >>= k) ≡ ok b
    → (a : A) × (m ≡ ok a) × (k a ≡ ok b)
>>=-eq-ok (ok a) k h = (a, refl, h)
>>=-eq-ok (err x) k h = cc

pub throw_if-eq-ok :
    {E : Type 0} (b : Bool) (e : E) (u : Unit {0}) → throw_if b e ≡ ok u → b ≡ false
throw_if-eq-ok true e u h = cc
throw_if-eq-ok false e u h = refl

pub or_throw-eq-ok :
    {E A : Type 0} (o : Option A) (e : E) (a : A) → or_throw o e ≡ ok a → o ≡ some a
or_throw-eq-ok none e a h = cc
or_throw-eq-ok (some b) e a h = cc
