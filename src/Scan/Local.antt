-- ===== src/Scan/Local.antt =====
-- A scanner is local if what it returns depends on the bytes that it takes and on nothing behind
-- them. `Reads m used a`: on the bytes `used` the scanner `m` returns `a` and stops behind them.
use lightwalletd.Common.{
  ℕ, zero, suc, List, [], ◌++◌, append-nil, append_assoc, ◌≡◌, refl, sym, ap, ◌∙◌, Result, ok, err,
  map_err, Bool, true, false, if◌then◌else◌,
}
use lightwalletd.Scan.Defs.{Scan, pure, fail, ◌>>=◌, continue, wrapping, repeat}

pub record Reads {E A : Type 0} (m : Scan E A) (used : List ℕ) (a : A) : Type 0 where
  pub on : (more : List ℕ) → m (used ++ more) ≡ (ok a, more)

pub record IsLocal {E A : Type 0} (m : Scan E A) : Type 0 where
  pub at :
      (s : List ℕ) (a : A) (rest : List ℕ)
      → m s ≡ (ok a, rest)
      → (used : List ℕ) × (s ≡ used ++ rest) × Reads m used a

module _ {E A : Type 0} where
  pub pure-IsLocal : (a : A) → IsLocal (pure {E = E} a)
  unfolding pure
  pure-IsLocal a = record {
    at = λ s b rest e. ([], ap (λ p. p.1) e, record { on = λ more i. (ap (λ p. p.0) e i, more) });
  }

  pub Reads-pure : (a : A) → Reads (pure {E = E} a) [] a
  unfolding pure
  Reads-pure a = record { on = λ more. refl }

  pub Reads-pure_inv :
      {used : List ℕ} {a b : A} → Reads (pure {E = E} a) used b → (used ≡ []) × (a ≡ b)
  unfolding pure
  Reads-pure_inv {used} h =
      (sym (append-nil used) ∙ ap (λ p. p.1) (h.on []), ok_eq (ap (λ p. p.0) (h.on [])))
    where
      ok_eq : {a b : A} → ◌≡◌ {A = Result E A} (ok a) (ok b) → a ≡ b
      ok_eq e = cc

  pub fail-IsLocal : (e : E) → IsLocal (fail {A = A} e)
  unfolding fail
  fail-IsLocal e = record { at = λ s b rest h. absurd (ok-ne-err (ap (λ p. p.0) h)) }
    where
      ok-ne-err : {a : A} → err e ≡ ok a → ⊥
      ok-ne-err h = cc

  pub Reads-fail_inv : (e : E) {used : List ℕ} {a : A} → ¬ Reads (fail e) used a
  unfolding fail
  Reads-fail_inv e h = err-ne-ok (ap (λ p. p.0) (h.on []))
    where
      err-ne-ok : {e : E} {a : A} → ◌≡◌ {A = Result E A} (err e) (ok a) → ⊥
      err-ne-ok p = cc

module _ {E A B : Type 0} where
  continue_ok :
      (r : Result E A) (f : A → Scan E B) (s : List ℕ) {c : B} {rest : List ℕ}
      → continue r f s ≡ (ok c, rest)
      → (a : A) × (r ≡ ok a) × (f a s ≡ (ok c, rest))
  continue_ok (ok a) f s h = (a, refl, h)
  continue_ok (err e) f s h = absurd (cc (ap (λ p. p.0) h))

  -- A block that returned has been through each of its steps.
  pub >>=-ok :
      (m : Scan E A) (f : A → Scan E B) (s : List ℕ) {c : B} {rest : List ℕ}
      → (m >>= f) s ≡ (ok c, rest)
      → (a : A) × (s' : List ℕ) × (m s ≡ (ok a, s')) × (f a s' ≡ (ok c, rest))
  unfolding ◌>>=◌
  >>=-ok m f s h =
      let (a, e, k) = continue_ok (m s).0 f (m s).1 h in (a, (m s).1, λ i. (e i, (m s).1), k)

  pub ok->>= :
      (m : Scan E A) (f : A → Scan E B) (s : List ℕ) {a : A} {s' : List ℕ}
      → m s ≡ (ok a, s')
      → (m >>= f) s ≡ f a s'
  unfolding ◌>>=◌
  ok->>= m f s e = λ i. continue (e i).0 f (e i).1

  pub Reads->>= :
      (m : Scan E A) (f : A → Scan E B) {used used' : List ℕ} {a : A} {c : B}
      → Reads m used a
      → Reads (f a) used' c
      → Reads (m >>= f) (used ++ used') c
  Reads->>= m f {used} {used'} h k = record {
    on =
        λ more. rw (append_assoc used used' more) (ok->>= m f _ (h.on (used' ++ more)) ∙ k.on more);
  }

  pub >>=-IsLocal :
      (m : Scan E A) (f : A → Scan E B) → IsLocal m → ((a : A) → IsLocal (f a)) → IsLocal (m >>= f)
  >>=-IsLocal m f lm lf = record {
    at = λ s c rest h.
        let (a, s', e, k) = >>=-ok m f s h in
        let (u, p, x) = lm.at s a s' e in
        let (v, q, y) = (lf a).at s' c rest k in
        (u ++ v, p ∙ ap (λ l. u ++ l) q ∙ sym (append_assoc u v rest), Reads->>= m f x y);
  }

  -- A last step that reads nothing.
  pub Reads-map :
      (m : Scan E A) (f : A → B) {used : List ℕ} {a : A}
      → Reads m used a
      → Reads (m >>= λ x. pure (f x)) used (f a)
  unfolding pure
  Reads-map m f {used} h = record { on = λ more. ok->>= m _ (used ++ more) (h.on more) }

  -- The bytes of a block are those of its first step, then those of the rest.
  pub Reads->>=_inv :
      (m : Scan E A) (f : A → Scan E B) {used : List ℕ} {c : B}
      → IsLocal m
      → ((a : A) → IsLocal (f a))
      → Reads (m >>= f) used c
      → (a : A) × (u v : List ℕ) × (used ≡ u ++ v) × Reads m u a × Reads (f a) v c
  Reads->>=_inv m f {used} {c} lm lf h =
      let (a, s', e, k) = >>=-ok m f (used ++ []) (h.on []) in
      let (u, p, x) = lm.at (used ++ []) a s' e in
      let (v, q, y) = (lf a).at s' c [] k in
      (a, u, v, sym (append-nil used) ∙ p ∙ ap (λ l. u ++ l) (q ∙ append-nil v), x, y)

module _ {E A : Type 0} where
  pub if-IsLocal :
      (b : Bool) (m n : Scan E A) → IsLocal m → IsLocal n → IsLocal (if b then m else n)
  if-IsLocal true m n lm ln = lm
  if-IsLocal false m n lm ln = ln

module _ {E F A : Type 0} where
  map_err_ok : (f : E → F) (r : Result E A) {a : A} → map_err f r ≡ ok a → r ≡ ok a
  map_err_ok f (ok b) h = cc
  map_err_ok f (err e) h = absurd (cc h)

  pub Reads-wrapping :
      (f : E → F) (m : Scan E A) {used : List ℕ} {a : A}
      → Reads m used a
      → Reads (wrapping f m) used a
  unfolding wrapping
  Reads-wrapping f m h = record { on = λ more i. (map_err f (h.on more i).0, (h.on more i).1) }

  pub wrapping-IsLocal : (f : E → F) (m : Scan E A) → IsLocal m → IsLocal (wrapping f m)
  wrapping-IsLocal f m l = record {
    at = λ s a rest h.
        let (u, p, x) = l.at s a rest (unwrapped s a rest h) in (u, p, Reads-wrapping f m x);
  }
    where
      unwrapped :
          (s : List ℕ) (a : A) (rest : List ℕ) → wrapping f m s ≡ (ok a, rest) → m s ≡ (ok a, rest)
      unwrapped s a rest h =
          unfold wrapping in λ i. (map_err_ok f (m s).0 (ap (λ p. p.0) h) i, (h i).1)

  pub Reads-wrapping_inv :
      (f : E → F) (m : Scan E A) {used : List ℕ} {a : A}
      → Reads (wrapping f m) used a
      → Reads m used a
  unfolding wrapping
  Reads-wrapping_inv f m {used} h = record {
    on = λ more i.
        (map_err_ok f (m (used ++ more)).0 (ap (λ p. p.0) (h.on more)) i, (h.on more i).1);
  }

module _ {E A : Type 0} where
  pub repeat-IsLocal : (n : ℕ) (m : Scan E A) → IsLocal m → IsLocal (repeat n m)
  unfolding repeat
  repeat-IsLocal zero m l = pure-IsLocal []
  repeat-IsLocal (suc n) m l =
      >>=-IsLocal m _ l λ x. >>=-IsLocal (repeat n m) _ (repeat-IsLocal n m l) λ xs. pure-IsLocal _

pub ruleset local_rules =
    (pure-IsLocal, fail-IsLocal, >>=-IsLocal, if-IsLocal, wrapping-IsLocal, repeat-IsLocal)
