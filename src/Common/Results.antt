-- ===== src/Common/Results.antt =====
-- Go's `error` values as data, and a result that carries what failed.
use Prim.Native.Nat.{ℕ}
use Prim.Native.String.{String}
use mathlib.Core.Path.{◌≡◌}

-- `new` is `errors.New`, `wrap` is `errors.Wrap`; `wrap_at e m i` wraps with a message that ends in
-- the number `i`, as `fmt.Sprintf("parsing transaction %d", i)` does.
pub data Error : Type 0 where
  new : String → Error
  wrap : Error → String → Error
  wrap_at : Error → String → ℕ → Error

pub data Result (E A : Type 0) : Type 0 where
  ok : A → Result E A
  err : E → Result E A

abbrev pub map_err : {E F A : Type 0} → (E → F) → Result E A → Result F A
map_err f (ok a) = ok a
map_err f (err e) = err (f e)

pub Result-cases :
    {E A : Type 0} (r : Result E A) {B : Type 0}
    → ((a : A) → r ≡ ok a → B)
    → ((e : E) → r ≡ err e → B)
    → B
Result-cases (ok a) f g = f a (λ _. ok a)
Result-cases (err e) f g = g e (λ _. err e)
