-- ===== src/Common/Results.antt =====
-- The outcome of code that may throw: a value, or the error that was thrown.
use mathlib.Core.Path.{◌≡◌, refl, ap, ◌∙◌, subst}
use mathlib.Core.Bool.{Bool, true, false}
use mathlib.Core.Option.{Option, none, some}

pub data Result (E : Type 0) (A : Type 0) : Type 0 where
  ok : A → Result E A
  err : E → Result E A

infixl 5 ◌>>=◌ ◌>>◌
unfoldable pub ◌>>=◌ : {E A B : Type 0} → Result E A → (A → Result E B) → Result E B
ok a >>= f = f a
err e >>= f = err e

unfoldable pub ◌>>◌ : {E B : Type 0} → Result E (Unit {0}) → Result E B → Result E B
unfolding ◌>>=◌
m >> k = m >>= λ _. k

-- `if (!test) throw error`
unfoldable pub require : {E : Type 0} → Bool → E → Result E (Unit {0})
require true e = ok tt
require false e = err e

-- `if (test) throw error`
unfoldable pub refuse : {E : Type 0} → Bool → E → Result E (Unit {0})
refuse true e = err e
refuse false e = ok tt

-- A value that must be there, or the error.
unfoldable pub or_throw : {E A : Type 0} → Option A → E → Result E A
or_throw none e = err e
or_throw (some a) e = ok a

-- To unfold `checks` is to unfold all of these.
unfoldable pub checks : Unit {0}
unfolding ◌>>=◌ ◌>>◌ require refuse or_throw
checks = tt

-- A chain that ended well went through each of its steps.
pub >>=-eq-ok :
    {E A B : Type 0} (m : Result E A) (f : A → Result E B) {b : B}
    → (m >>= f) ≡ ok b
    → (a : A) × (m ≡ ok a) × (f a ≡ ok b)
unfolding ◌>>=◌
>>=-eq-ok (ok a) f h = (a, refl, h)
>>=-eq-ok (err e) f h = cc

ok->>= : {E A B : Type 0} (a : A) (f : A → Result E B) → (ok a >>= f) ≡ f a
unfolding ◌>>=◌
ok->>= a f = refl

ok->> : {E B : Type 0} (k : Result E B) → (ok tt >> k) ≡ k
unfolding ◌>>◌ ◌>>=◌
ok->> k = refl

-- A chain goes on from a step that ends well.
pub >>=-ok :
    {E A B : Type 0} {m : Result E A} (f : A → Result E B) {a : A} {r : Result E B}
    → m ≡ ok a
    → f a ≡ r
    → (m >>= f) ≡ r
>>=-ok f {a = a} e h = ap (λ x. x >>= f) e ∙ ok->>= a f ∙ h

pub >>-ok :
    {E B : Type 0} {m : Result E (Unit {0})} {k : Result E B} {r : Result E B}
    → m ≡ ok tt
    → k ≡ r
    → (m >> k) ≡ r
>>-ok {k = k} e h = ap (λ x. x >> k) e ∙ ok->> k ∙ h

-- A step of a chain that ended well, and the rest.
pub >>-eq-ok :
    {E A : Type 0} (m : Result E (Unit {0})) (k : Result E A) {a : A}
    → (m >> k) ≡ ok a
    → (m ≡ ok tt) × (k ≡ ok a)
unfolding ◌>>=◌ ◌>>◌
>>-eq-ok (ok tt) k h = (refl, h)
>>-eq-ok (err e) k h = absurd (cc)

ok-injective : {E A : Type 0} {a b : A} → ◌≡◌ {A = Result E A} (ok a) (ok b) → a ≡ b
ok-injective e = cc

-- What holds of the value of a chain that ends well, with a rule for each kind of step.
pub data Post {ℓ} {E A : Type 0} (P : A → Type ℓ) : Result E A → Type ℓ where
  returns : {a : A} → P a → Post P (ok a)
  throws : {e : E} → Post P (err e)

module _ {ℓ} {E A : Type 0} {P : A → Type ℓ} where
  pub Post-require :
      {b : Bool} (e : E) {k : Result E A} → (b ≡ true → Post P k) → Post P (require b e >> k)
  unfolding checks
  Post-require {b = true} e h = h refl
  Post-require {b = false} e h = throws

  pub Post-refuse :
      {b : Bool} (e : E) {k : Result E A} → (b ≡ false → Post P k) → Post P (refuse b e >> k)
  unfolding checks
  Post-refuse {b = true} e h = throws
  Post-refuse {b = false} e h = h refl

  pub Post->>= :
      {B : Type 0} {m : Result E B} {f : B → Result E A}
      → ((b : B) → m ≡ ok b → Post P (f b))
      → Post P (m >>= f)
  unfolding checks
  Post->>= {m = ok b} h = h b refl
  Post->>= {m = err e} h = throws

  pub Post->> :
      {m : Result E (Unit {0})} {k : Result E A} → (m ≡ ok tt → Post P k) → Post P (m >> k)
  unfolding checks
  Post->> {m = ok tt} h = h refl
  Post->> {m = err e} h = throws

  pub Post-or_throw :
      {B : Type 0} {o : Option B} (e : E) {f : B → Result E A}
      → ((b : B) → o ≡ some b → Post P (f b))
      → Post P (or_throw o e >>= f)
  unfolding checks
  Post-or_throw {o = none} e h = throws
  Post-or_throw {o = some b} e h = h b refl

  pub Post-ok : {r : Result E A} {a : A} → Post P r → r ≡ ok a → P a
  Post-ok {a = a} (returns p) e = subst P (ok-injective e) p
  Post-ok throws e = cc
