-- ===== src/Prelude/Result.antt =====
-- A Python function that may raise: `ok` is the value returned, `err` the exception raised.
use mathlib.Core.Path.{Path, ap, ◌≡◌, refl}

pub data Result {ℓ κ} (E : Type ℓ) (A : Type κ) : Type (ℓ ⊔ κ) where
  ok : A → Result E A
  err : E → Result E A

infixl 5 ◌>>=◌ ◌>>◌
abbrev pub ◌>>=◌ {ℓ κ μ} :
    {E : Type ℓ} {A : Type κ} {B : Type μ} → Result E A → (A → Result E B) → Result E B
ok a >>= f = f a
err x >>= f = err x

abbrev pub ◌>>◌ {ℓ κ} : {E : Type ℓ} {B : Type κ} → Result E (Unit {0}) → Result E B → Result E B
m >> k = m >>= λ _. k

-- A bind that returns is a first part that returns and a second that does.
pub >>=-eq-ok {ℓ κ μ} :
    {E : Type ℓ} {A : Type κ} {B : Type μ} (r : Result E A) (rest : A → Result E B) {last : B}
    → (r >>= rest) ≡ ok last
    → (first : A) × (r ≡ ok first) × (rest first ≡ ok last)
>>=-eq-ok (err x) rest e = cc
>>=-eq-ok (ok first) rest e = (first, refl, e)

-- A bind whose first part returns.
pub >>=_ok {ℓ κ μ} :
    {E : Type ℓ} {A : Type κ} {B : Type μ} (m : Result E A) (f : A → Result E B) {a : A}
    {r : Result E B}
    → m ≡ ok a
    → f a ≡ r
    → (m >>= f) ≡ r
>>=_ok m f p q = rw p q

pub ok_inj {ℓ κ} : {E : Type ℓ} {A : Type κ} {a b : A} → Path (Result E A) (ok a) (ok b) → a ≡ b
ok_inj h = cc

pub err_inj {ℓ κ} : {E : Type ℓ} {A : Type κ} {a b : E} → Path (Result E A) (err a) (err b) → a ≡ b
err_inj h = cc

-- An error of a bind whose second part returns is an error of its first.
pub >>=-ok_err {ℓ κ μ} :
    {E : Type ℓ} {A : Type κ} {B : Type μ} (m : Result E A) (f : A → B) {x : E}
    → Path (Result E B) (m >>= λ a. ok (f a)) (err x)
    → Path (Result E A) m (err x)
>>=-ok_err (ok a) f h = cc
>>=-ok_err (err y) f h = ap err (err_inj h)
