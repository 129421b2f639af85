-- ===== src/Base/Fail.antt =====
-- Runs that may fault: `none` is a failed `assert`, an access out of bounds or another abort.
use mathlib.Core.Bool.{Bool, true, false}
use mathlib.Core.Option.{Option, none, some}

infixl 5 ◌>>=◌ ◌>>◌
abbrev pub ◌>>=◌ {ℓ κ} : {A : Type ℓ} {B : Type κ} → Option A → (A → Option B) → Option B
some a >>= f = f a
none >>= f = none

abbrev pub ◌>>◌ {ℓ} : {B : Type ℓ} → Option (Unit {0}) → Option B → Option B
m >> k = m >>= λ _. k

-- `assert(b)` of a build without NDEBUG, which is the default build.
abbrev pub assert : Bool → Option (Unit {0})
assert true = some tt
assert false = none
