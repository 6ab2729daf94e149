-- ===== src/Common/Reading.antt =====
-- Results of code that reads a buffer of known length. `fault` is a read outside the buffer, or a
-- loop that outran its bound; `stop` is the early return with the function's failure value.
use Prim.Native.Nat.{ℕ, zero, suc, ◌+◌, ◌*◌, ◌<◌}
use mathlib.Core.Path.{◌≡◌, refl, subst}
use mathlib.Core.Bool.{Bool, true, false}
use mathlib.Core.List.{List, [], ◌∷◌}
use mathlib.Core.Logic.{◌≢◌}
use native.Mathlib.Omega.{arith}
use raise_my_freedom.Common.Lists.{length}

pub data Scan {ℓ} (A : Type ℓ) : Type ℓ where
  fault : Scan A
  stop : Scan A
  ok : A → Scan A

infixl 5 ◌>>=◌ ◌>>◌
abbrev pub ◌>>=◌ {ℓ κ} : {A : Type ℓ} {B : Type κ} → Scan A → (A → Scan B) → Scan B
fault >>= f = fault
stop >>= f = stop
ok a >>= f = f a

abbrev pub ◌>>◌ {κ} : {B : Type κ} → Scan (Unit {0}) → Scan B → Scan B
m >> k = m >>= λ _. k

-- `if (!b) return failure;`
abbrev pub guard : Bool → Scan (Unit {0})
guard true = ok tt
guard false = stop

-- `p[i]`
abbrev pub at : List ℕ → ℕ → Scan ℕ
at [] i = fault
at (x ∷ xs) zero = ok x
at (x ∷ xs) (suc i) = at xs i

-- `(p[i] << 8) | p[i + 1]`
abbrev pub be16 : List ℕ → ℕ → Scan ℕ
be16 p i = do a ← at p i; b ← at p (i + 1); ok (a * 256 + b)

-- No fault, and a successful result has the property.
pub data Ensures {ℓ κ} {A : Type ℓ} (P : A → Type κ) : Scan A → Type (ℓ ⊔ κ) where
  stopped : Ensures P stop
  returned : {a : A} → P a → Ensures P (ok a)

pub Ensures-bind {ℓ κ ι η} :
    {A : Type ℓ} {B : Type κ} {P : A → Type ι} {Q : B → Type η} {m : Scan A} {f : A → Scan B}
    → Ensures P m
    → ((a : A) → P a → Ensures Q (f a))
    → Ensures Q (m >>= f)
Ensures-bind stopped k = stopped
Ensures-bind (returned {a} p) k = k a p

pub Ensures-guard : (b : Bool) → Ensures (λ _. b ≡ true) (guard b)
Ensures-guard true = returned refl
Ensures-guard false = stopped

pub Ensures-at : (p : List ℕ) (i : ℕ) → i < length p → Ensures (λ v. at p i ≡ ok v) (at p i)
Ensures-at [] i h = elim h [ ]
Ensures-at (x ∷ xs) zero h = returned refl
Ensures-at (x ∷ xs) (suc i) h = Ensures-at xs i (omega arith)

pub Ensures-be16 :
    (p : List ℕ) (i : ℕ) → i + 1 < length p → Ensures (λ v. be16 p i ≡ ok v) (be16 p i)
Ensures-be16 p i h =
    Ensures-bind (Ensures-at p i (omega arith))
      λ a ea. Ensures-bind (Ensures-at p (i + 1) h) λ b eb. returned (rw (ea, eb))

pub Ensures-ne-fault {ℓ κ} : {A : Type ℓ} {P : A → Type κ} {m : Scan A} → Ensures P m → m ≢ fault
Ensures-ne-fault stopped = λ e. cc
Ensures-ne-fault (returned p) = λ e. cc

pub Ensures-map {ℓ κ ι} :
    {A : Type ℓ} {P : A → Type κ} {Q : A → Type ι} {m : Scan A}
    → ((a : A) → P a → Q a)
    → Ensures P m
    → Ensures Q m
Ensures-map f stopped = stopped
Ensures-map f (returned {a} p) = returned (f a p)

pub Ensures-ok {ℓ κ} :
    {A : Type ℓ} {P : A → Type κ} {m : Scan A} {a : A} → Ensures P m → m ≡ ok a → P a
Ensures-ok stopped e = cc
Ensures-ok {P} (returned {a = b} p) e = subst P (cc) p

pub >>=-eq-ok {ℓ κ} :
    {A : Type ℓ} {B : Type κ} (reading : Scan A) (next : A → Scan B) {result : B}
    → (reading >>= next) ≡ ok result
    → (found : A) × (reading ≡ ok found) × (next found ≡ ok result)
>>=-eq-ok stop next got = cc
>>=-eq-ok fault next got = cc
>>=-eq-ok (ok found) next got = (found, refl, got)

pub guard-eq-ok {κ} :
    {B : Type κ} (b : Bool) (k : Scan B) {r : B} → (guard b >> k) ≡ ok r → (b ≡ true) × (k ≡ ok r)
guard-eq-ok true k h = (refl, h)
guard-eq-ok false k h = cc
