-- ===== src/Scan/Defs.antt =====
-- Methods that advance a byte string and may fail: what `func (s *String) ReadX(out *T) bool` and
-- the bodies of the `ParseFromSlice` methods have in common. The state is the variable `s`; it
-- stands beside an error too, as it does in Go.
use lightwalletd.Common.{ℕ, zero, suc, List, [], ◌∷◌, Result, ok, err, Error, new, String, map_err}

abbrev pub Scan : Type 0 → Type 0 → Type 0
Scan E A = List ℕ → Result E A × List ℕ

-- The methods of `bytestring.String` report failure by `false`, with no message.
abbrev pub Read : Type 0 → Type 0
Read = Scan (Unit {0})

module _ {E A : Type 0} where
  unfoldable pub pure : A → Scan E A
  pure a s = (ok a, s)

  unfoldable pub fail : E → Scan E A
  fail e s = (err e, s)

module _ {E A B : Type 0} where
  abbrev pub continue : Result E A → (A → Scan E B) → Scan E B
  continue (ok a) f s = f a s
  continue (err e) f s = (err e, s)

  infixl 10 ◌>>=◌
  unfoldable pub ◌>>=◌ : Scan E A → (A → Scan E B) → Scan E B
  unfolding pure fail
  ◌>>=◌ m f s = let (r, s') = m s in continue r f s'

-- `s, err = x.ParseFromSlice([]byte(s)); if err != nil { return nil, errors.Wrap(err, …) }`
module _ {E F A : Type 0} where
  unfoldable pub wrapping : (E → F) → Scan E A → Scan F A
  wrapping f m s = let (r, s') = m s in (map_err f r, s')

-- `if !s.ReadX(&field) { return nil, errors.New(message) }`
abbrev pub check : {A : Type 0} → String → Read A → Scan Error A
check message = wrapping (λ _. new message)

-- `for i := 0; i < n; i++ { … xs[i] = x }`
module _ {E A : Type 0} where
  unfoldable pub repeat : ℕ → Scan E A → Scan E (List A)
  repeat zero m = pure []
  repeat (suc n) m = m >>= λ x. repeat n m >>= λ xs. pure (x ∷ xs)
