-- ===== src/Base/Process.antt =====
-- What a call does: it returns, a failed `ANY_REQUIRE` (Any.h) ends the process, or it waits for ever.
use mathlib.Core.Path.{◌≡◌}
use mathlib.Core.Bool.{Bool, true, false}

pub data Run {ℓ} (A : Type ℓ) : Type ℓ where
  exit : Run A
  blocked : Run A
  ok : A → Run A

-- What follows a call that does not return is not run.
infixl 5 ◌>>=◌ ◌>>◌
abbrev pub ◌>>=◌ {ℓ κ} : {A : Type ℓ} → {B : Type κ} → (call : Run A) → (next : A → Run B) → Run B
exit >>= next = exit
blocked >>= next = blocked
ok x >>= next = next x

abbrev pub ◌>>◌ {ℓ} : {B : Type ℓ} → Run (Unit {0}) → Run B → Run B
m >> k = m >>= λ _. k

-- `ANY_REQUIRE( cond )`
abbrev pub require : Bool → Run (Unit {0})
require false = exit
require true = ok tt

-- The call returns, and its result satisfies `Post`.
module _ {ℓ κ} {A : Type ℓ} where
  abbrev pub Returns : Run A → (A → Type κ) → Type (ℓ ⊔ κ)
  Returns call Post = (result : A) × (call ≡ ok result) × Post result
