-- ===== src/Base/Results.antt =====
-- `(value, error)` results: one of the two. Each component has error types of its own.
use mathlib.Core.Path.{◌≡◌, refl}
use mathlib.Core.Logic.{◌↔◌, ◌⊎◌, inl, inr}
use mathlib.Core.Bool.{Bool, true, false}

pub data Result {ℓ κ} (Error : Type ℓ) (Answer : Type κ) : Type (ℓ ⊔ κ) where
  ok : Answer → Result Error Answer
  err : Error → Result Error Answer

infixl 5 ◌>>=◌ ◌>>◌
abbrev pub ◌>>=◌ {ℓ κ μ} :
    {Error : Type ℓ} {Answer : Type κ} {Next : Type μ}
    → Result Error Answer
    → (Answer → Result Error Next)
    → Result Error Next
ok x >>= cont = cont x
err why >>= cont = err why

abbrev pub ◌>>◌ {ℓ κ} :
    {Error : Type ℓ} {Next : Type κ}
    → Result Error (Unit {0})
    → Result Error Next
    → Result Error Next
r >> k = r >>= λ _. k

-- Passes when the test holds.
abbrev pub require {ℓ} : {Error : Type ℓ} → Bool → Error → Result Error (Unit {0})
require true why = ok tt
require false why = err why

pub Result-cases {ℓ κ} :
    {Error : Type ℓ} {Answer : Type κ} (r : Result Error Answer)
    → ((x : Answer) × (r ≡ ok x)) ⊎ ((why : Error) × (r ≡ err why))
Result-cases (ok x) = inl (x, refl)
Result-cases (err why) = inr (why, refl)

pub >>=-eq-ok {ℓ κ μ} :
    {Error : Type ℓ} {Answer : Type κ} {Next : Type μ} (r : Result Error Answer)
    (cont : Answer → Result Error Next) {b : Next}
    → (r >>= cont) ≡ ok b
    → (x : Answer) × (r ≡ ok x) × (cont x ≡ ok b)
>>=-eq-ok (ok x) cont p = (x, refl, p)
>>=-eq-ok (err why) cont p = cc

pub require->>-eq-ok {ℓ κ} :
    {Error : Type ℓ} {Next : Type κ} (b : Bool) (why : Error) (k : Result Error Next) {c : Next}
    → (require b why >> k) ≡ ok c
    → (b ≡ true) × (k ≡ ok c)
require->>-eq-ok true why k p = (refl, p)
require->>-eq-ok false why k p = cc

pub ok-injective {ℓ κ} :
    {Error : Type ℓ} {Answer : Type κ} {x b : Answer}
    → ◌≡◌ {A = Result Error Answer} (ok x) (ok b)
    → x ≡ b
ok-injective p = cc

pub require-eq-ok {ℓ} :
    {Error : Type ℓ} (b : Bool) (why : Error) {u : Unit {0}} → require b why ≡ ok u → b ≡ true
require-eq-ok true why p = refl
require-eq-ok false why p = cc

-- A check after a check passes when both do.
pub >>-ok_iff {ℓ} :
    {Error : Type ℓ} (r k : Result Error (Unit {0}))
    → ((r >> k) ≡ ok tt) ↔ ((r ≡ ok tt) × (k ≡ ok tt))
>>-ok_iff (ok tt) k = (λ p. (refl, p), λ (_, p). p)
>>-ok_iff (err why) k = (λ p. cc, λ (p, _). cc)

pub require_iff {ℓ} :
    {Error : Type ℓ} (b : Bool) (why : Error) → (require b why ≡ ok tt) ↔ (b ≡ true)
require_iff true why = (λ p. refl, λ p. refl)
require_iff false why = (λ p. cc, λ p. cc)

pub ok≢err {ℓ κ} :
    {Error : Type ℓ} {Answer : Type κ} {x : Answer} {why : Error} → ¬ (ok x ≡ err why)
ok≢err p = cc

pub >>=-ok {ℓ κ μ} :
    {Error : Type ℓ} {Answer : Type κ} {Next : Type μ} (r : Result Error Answer)
    (cont : Answer → Result Error Next) {x : Answer} {b : Next}
    → r ≡ ok x
    → cont x ≡ ok b
    → (r >>= cont) ≡ ok b
>>=-ok r cont p k = rw p k

pub require->>-ok_iff {ℓ κ} :
    {Error : Type ℓ} {P : Type κ} (b : Bool) (why : Error) (k : Result Error (Unit {0}))
    → ((k ≡ ok tt) ↔ P)
    → ((require b why >> k) ≡ ok tt) ↔ ((b ≡ true) × P)
require->>-ok_iff true why k (to, back) = (λ h. (refl, to h), λ (_, p). back p)
require->>-ok_iff false why k (to, back) = (λ h. cc, λ (e, _). cc)
