-- ===== src/Http.antt =====
-- Handlers that answer a value or raise `HTTPException(status)`; the text of `detail` is left out.
use flow_demo.Base.{ℕ, Bool, true, false, Option, none, some, ◌≡◌, refl}

pub data Response {ℓ} (A : Type ℓ) : Type ℓ where
  answer : A → Response A
  http_error : ℕ → Response A

infixl 5 ◌>>=◌ ◌>>◌
abbrev pub ◌>>=◌ {ℓ κ} : {A : Type ℓ} {B : Type κ} → Response A → (A → Response B) → Response B
answer a >>= f = f a
http_error s >>= f = http_error s

abbrev pub ◌>>◌ {ℓ} : {B : Type ℓ} → Response (Unit {0}) → Response B → Response B
m >> k = m >>= λ _. k

-- `if not test: raise HTTPException(status)`
abbrev pub require : Bool → ℕ → Response (Unit {0})
require true s = answer tt
require false s = http_error s

-- the row, or `raise HTTPException(status)` where there is none
abbrev pub found_or {ℓ} : {A : Type ℓ} → ℕ → Option A → Response A
found_or s none = http_error s
found_or s (some a) = answer a

-- a chain that answers has passed its first call
pub after :
    {A B C : Type 0} (m : Response A) (f : A → Response B) (b : B)
    → (m >>= f) ≡ answer b
    → ((a : A) → m ≡ answer a → f a ≡ answer b → C)
    → C
after (answer a) f b h k = k a refl h
after (http_error e) f b h k = let bad : http_error e ≡ answer b = h in cc

pub answer-inj : {A : Type 0} (a b : A) → answer a ≡ answer b → a ≡ b
answer-inj a b h = cc

pub require-answer : (t : Bool) (e : ℕ) (u : Unit {0}) → require t e ≡ answer u → t ≡ true
require-answer true e u h = refl
require-answer false e u h = cc

pub found_or-answer :
    {A : Type 0} (e : ℕ) (o : Option A) (a : A) → found_or e o ≡ answer a → o ≡ some a
found_or-answer e none a h = cc
found_or-answer e (some x) a h = cc
