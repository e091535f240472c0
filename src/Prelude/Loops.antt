-- ===== src/Prelude/Loops.antt =====
-- The counted `for` loops of the program, and `do` blocks over the results that may be missing.
use Prim.Native.Nat.{ℕ, zero, suc, ◌+◌}
use mathlib.Core.Option.{Option, none, some}

-- `none` is a process that does not go on: `AbruptExit`, `exit(1)`, or an index out of range.
infixl 5 ◌>>=◌ ◌>>◌
abbrev pub ◌>>=◌ {ℓ κ} : {A : Type ℓ} {B : Type κ} → Option A → (A → Option B) → Option B
none >>= f = none
some a >>= f = f a

abbrev pub ◌>>◌ {ℓ κ} : {A : Type ℓ} {B : Type κ} → Option A → Option B → Option B
m >> k = m >>= λ _. k

-- for (k = i; k < i + n; k++) s = body(k, s)
unfoldable pub for_range {ℓ} :
    {State : Type ℓ} (rounds first : ℕ) → (ℕ → State → State) → State → State
for_range zero k body state = state
for_range (suc rounds) k body state = let next = body k state in for_range rounds (k + 1) body next

-- The same, where the body may stop the process.
unfoldable pub for_range? {ℓ} :
    {State : Type ℓ} (rounds first : ℕ) → (ℕ → State → Option State) → State → Option State
for_range? zero k body state = some state
for_range? (suc rounds) k body state = body k state >>= for_range? rounds (k + 1) body
