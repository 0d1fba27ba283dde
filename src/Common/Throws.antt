-- ===== src/Common/Throws.antt =====
-- Code that may throw. The exceptions of the program are `config::ConfigError`, whose message is
-- not modelled, `std::out_of_range`, `std::runtime_error` of a file that cannot be opened, and the
-- `std::length_error` of a string. `out_of_fuel` is none of them: it is what a loop of the model would
-- answer if its fuel ran out.
use mathlib.Core.Path.{◌≡◌, refl}
use mathlib.Core.Bool.{Bool, true, false}

pub data Exception : Type 0 where
  config_error out_of_range runtime_error length_error out_of_fuel : Exception

pub data Result {ℓ} (A : Type ℓ) : Type ℓ where
  returns : A → Result A
  throws : Exception → Result A

infixl 5 ◌>>=◌
infixr 4 ◌>>◌
abbrev pub ◌>>=◌ {ℓ κ} : {A : Type ℓ} {B : Type κ} → Result A → (A → Result B) → Result B
returns a >>= f = f a
throws e >>= f = throws e

abbrev pub ◌>>◌ {ℓ} : {B : Type ℓ} → Result (Unit {0}) → Result B → Result B
m >> k = m >>= λ _. k

-- `if (!b) throw e;`
unfoldable pub require : Bool → Exception → Result (Unit {0})
require true e = returns tt
require false e = throws e

-- The two steps of what has returned.
pub >>=-eq-returns {ℓ κ} :
    {A : Type ℓ} {B : Type κ} (m : Result A) (f : A → Result B) {b : B}
    → (m >>= f) ≡ returns b
    → (a : A) × (m ≡ returns a) × (f a ≡ returns b)
>>=-eq-returns (returns a) f h = (a, refl, h)
>>=-eq-returns (throws e) f h = cc

pub returns-inj {ℓ} : {A : Type ℓ} (a b : A) → ◌≡◌ {A = Result A} (returns a) (returns b) → a ≡ b
returns-inj a b e = cc

-- The outcome is a value with the property, or `config_error`.
pub data Ensures {ℓ} {A : Type ℓ} (P : A → Type 0) : Result A → Type ℓ where
  value_with : (a : A) → P a → Ensures P (returns a)
  refused : Ensures P (throws config_error)

-- Nothing is said of the value.
abbrev pub Anything {ℓ} : {A : Type ℓ} → A → Type 0
Anything a = Unit

pub ensures_any {ℓ} : {A : Type ℓ} (a : A) → Ensures Anything (returns a)
ensures_any a = value_with a tt

pub ensures-bind {ℓ κ} :
    {A : Type ℓ} {B : Type κ} (Q : A → Type 0) {P : B → Type 0} {m : Result A} (f : A → Result B)
    → Ensures Q m
    → ((a : A) → Q a → Ensures P (f a))
    → Ensures P (m >>= f)
ensures-bind Q f (value_with a h) hf = hf a h
ensures-bind Q f refused hf = refused

pub require-Ensures : (b : Bool) → Ensures (λ _. b ≡ true) (require b config_error)
unfolding require
require-Ensures true = value_with tt refl
require-Ensures false = refused

pub ensures_weaken {ℓ} :
    {A : Type ℓ} (P : A → Type 0) {Q : A → Type 0} {m : Result A}
    → Ensures P m
    → ((a : A) → P a → Q a)
    → Ensures Q m
ensures_weaken P (value_with a h) f = value_with a (f a h)
ensures_weaken P refused f = refused

pub ensures-returns {ℓ} :
    {A : Type ℓ} (P : A → Type 0) {m : Result A} (a : A) → Ensures P m → m ≡ returns a → P a
ensures-returns P a (value_with b h) e = rw⁻¹ (returns-inj b a e) h
ensures-returns P a refused e = absurd cc

pub ensures-throws {ℓ} :
    {A : Type ℓ} (P : A → Type 0) {m : Result A} (e : Exception)
    → Ensures P m
    → m ≡ throws e
    → e ≡ config_error
ensures-throws P e (value_with b h) q = absurd cc
ensures-throws P e refused q = cc

pub bind_assoc {ℓ κ μ} :
    {A : Type ℓ} {B : Type κ} {C : Type μ} (m : Result A) (f : A → Result B) (g : B → Result C)
    → ((m >>= f) >>= g) ≡ (m >>= λ a. f a >>= g)
bind_assoc (returns a) f g = refl
bind_assoc (throws e) f g = refl

pub bind_congr {ℓ κ} :
    {A : Type ℓ} {B : Type κ} (m : Result A) (f g : A → Result B)
    → ((a : A) → f a ≡ g a)
    → (m >>= f) ≡ (m >>= g)
bind_congr (returns a) f g h = h a
bind_congr (throws e) f g h = refl
