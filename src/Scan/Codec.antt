-- ===== src/Scan/Codec.antt =====
-- A scanner and an encoding that are inverse to one another, with a rule for each way in which the
-- parser builds a scanner.
use mathlib.Core.Path.{subst}
use lightwalletd.Common.{
  ℕ, zero, suc, List, [], ◌∷◌, ◌++◌, append-nil, ◌≡◌, refl, sym, ap, ◌∙◌, Bool, true, false,
  if◌then◌else◌, length, All, IsByte, All-front, All-back, arith, ok, ◌↔◌,
}
use lightwalletd.Scan.Defs.{Scan, pure, fail, ◌>>=◌, wrapping, repeat}
use lightwalletd.Scan.Local.{
  Reads, IsLocal, pure-IsLocal, fail-IsLocal, >>=-IsLocal, wrapping-IsLocal, repeat-IsLocal,
  Reads->>=, Reads->>=_inv, Reads-map, Reads-pure, Reads-pure_inv, Reads-wrapping,
  Reads-wrapping_inv, Reads-fail_inv,
}

abbrev pub concat_map : {A : Type 0} → (A → List ℕ) → List A → List ℕ
concat_map e [] = []
concat_map e (x ∷ xs) = e x ++ concat_map e xs

-- Every valid value is read from its encoding, whatever follows, and nothing else made of bytes is
-- read as a value.
pub record Codec {E A : Type 0} (m : Scan E A) (Valid : A → Type 0) (encode : A → List ℕ)
    : Type 0 where
  pub local : IsLocal m
  pub reads : (a : A) → Valid a → Reads m (encode a) a
  pub only :
      (used : List ℕ) (a : A) → All IsByte used → Reads m used a → (used ≡ encode a) × Valid a

module _ {E F A : Type 0} where
  pub wrapping-Codec :
      (f : E → F) {m : Scan E A} {V : A → Type 0} {e : A → List ℕ}
      → Codec m V e
      → Codec (wrapping f m) V e
  wrapping-Codec f {m} c = record {
    local = wrapping-IsLocal f m c.local;
    reads = λ a v. Reads-wrapping f m (c.reads a v);
    only = λ used a b h. c.only used a b (Reads-wrapping_inv f m h);
  }

-- A step of a block for a value `c` of which it reads the part `part c`. `K c` is what earlier
-- steps have fixed of `c`.
module _ {E A C : Type 0} where
  pub >>=-Codec_valid :
      (part : C → A) (K : C → Type 0) {m : Scan E A} {f : A → Scan E C} {V : A → Type 0}
      {e : A → List ℕ} {W : A → C → Type 0} {d : A → C → List ℕ}
      → Codec m V e
      → ((a : A) → IsLocal (f a))
      → ((a : A) → V a → Codec (f a) (λ c. (K c × (part c ≡ a)) × W a c) (d a))
      → Codec (m >>= f) (λ c. K c × (V (part c) × W (part c) c)) (λ c. e (part c) ++ d (part c) c)
  >>=-Codec_valid part K {m} {f} {V} {e} {W} {d} cm lf cf = record {
    local = >>=-IsLocal m f cm.local lf;
    reads = λ c v.
        Reads->>= m f (cm.reads (part c) v.1.0) ((cf (part c) v.1.0).reads c ((v.0, refl), v.1.1));
    only = λ used c b h.
        let (a, u, w, s, x, y) = Reads->>=_inv m f cm.local lf h in
        let bs : All IsByte (u ++ w) = subst (All IsByte) s b in
        let (eu, vu) = cm.only u a (All-front IsByte u w bs) x in
        let (ew, vw) = (cf a vu).only w c (All-back IsByte u w bs) y in
        let p : a ≡ part c = sym vw.0.1 in
        (
          s ∙ (λ i. eu i ++ ew i) ∙ (λ i. e (p i) ++ d (p i) c),
          (vw.0.0, (subst V p vu, subst (λ x. W x c) p vw.1)),
        );
  }

  -- The same where the rest of the block is right whatever was read.
  pub >>=-Codec :
      (part : C → A) (K : C → Type 0) {m : Scan E A} {f : A → Scan E C} {V : A → Type 0}
      {e : A → List ℕ} {W : A → C → Type 0} {d : A → C → List ℕ}
      → Codec m V e
      → ((a : A) → Codec (f a) (λ c. (K c × (part c ≡ a)) × W a c) (d a))
      → Codec (m >>= f) (λ c. K c × (V (part c) × W (part c) c)) (λ c. e (part c) ++ d (part c) c)
  >>=-Codec part K cm cf = >>=-Codec_valid part K cm (λ a. (cf a).local) (λ a _. cf a)

module _ {E A B : Type 0} where
  -- A conversion of the value that was read, `g`, and the way back, `h`.
  pub map-Codec :
      (g : A → B) (h : B → A) {m : Scan E A} {V : A → Type 0} {e : A → List ℕ} (W : B → Type 0)
      → Codec m V e
      → ((b : B) → W b → V (h b) × (g (h b) ≡ b))
      → ((a : A) → V a → W (g a) × (h (g a) ≡ a))
      → Codec (m >>= λ x. pure (g x)) W (λ b. e (h b))
  map-Codec g h {m} {V} {e} W c back there = record {
    local = >>=-IsLocal m _ c.local (λ a. pure-IsLocal (g a));
    reads = λ b w.
        let (v, p) = back b w in subst (Reads _ (e (h b))) p (Reads-map m g (c.reads (h b) v));
    only = λ used b bs r.
        let (a, u, z, s, x, y) = Reads->>=_inv m _ c.local (λ a. pure-IsLocal (g a)) r in
        let (zn, p) = Reads-pure_inv y in
        let us : used ≡ u = s ∙ ap (λ l. u ++ l) zn ∙ append-nil u in
        let (eu, v) = c.only u a (subst (All IsByte) us bs) x in
        let (w, q) = there a v in (us ∙ eu ∙ ap e (sym q ∙ ap h p), subst W p w);
  }

module _ {E C : Type 0} where
  -- The end of a block: what earlier steps fixed, and what is valid, determine the value.
  pub pure-Codec :
      (K W : C → Type 0) (r : C)
      → K r × W r
      → ((c : C) → K c → W c → r ≡ c)
      → Codec (pure {E = E} r) (λ c. K c × W c) (λ c. [])
  pure-Codec K W r k unique = record {
    local = pure-IsLocal r;
    reads = λ c v. subst (Reads (pure r) []) (unique c v.0 v.1) (Reads-pure r);
    only = λ used c b h. let (u, p) = Reads-pure_inv h in (u, subst (λ c. K c × W c) p k);
  }

  pub fail-Codec :
      (K W : C → Type 0) (e : E) (d : C → List ℕ)
      → ((c : C) → K c → ¬ W c)
      → Codec (fail {A = C} e) (λ c. K c × W c) d
  fail-Codec K W e d never = record {
    local = fail-IsLocal e;
    reads = λ c v. absurd (never c v.0 v.1);
    only = λ used c b h. absurd (Reads-fail_inv e h);
  }

module _ {E A : Type 0} where
  -- The same scanner under another description of its values and their encodings.
  pub Codec-iff :
      {m : Scan E A} {V W : A → Type 0} {e d : A → List ℕ}
      → Codec m V e
      → ((a : A) → W a → V a × (e a ≡ d a))
      → ((a : A) → V a → W a × (e a ≡ d a))
      → Codec m W d
  Codec-iff {m} c from to = record {
    local = c.local;
    reads = λ a w. let (v, p) = from a w in subst (λ l. Reads m l a) p (c.reads a v);
    only = λ used a b h. let (u, v) = c.only used a b h in let (w, p) = to a v in (u ∙ p, w);
  }

  pub if-Codec :
      (b : Bool) {m n : Scan E A} {V W : A → Type 0} {e d : A → List ℕ}
      → Codec m V e
      → Codec n W d
      → Codec (if b then m else n) (λ a. if b then V a else W a) (λ a. if b then e a else d a)
  if-Codec true cm cn = cm
  if-Codec false cm cn = cn

module _ {E A : Type 0} {m : Scan E A} {V : A → Type 0} {e : A → List ℕ} (c : Codec m V e) where
  repeat-Reads :
      (xs : List A) (n : ℕ) → length xs ≡ n → All V xs → Reads (repeat n m) (concat_map e xs) xs
  unfolding repeat
  repeat-Reads [] zero h v = Reads-pure []
  repeat-Reads [] (suc n) h v = absurd (omega arith)
  repeat-Reads (x ∷ xs) zero h v = absurd (omega arith)
  repeat-Reads (x ∷ xs) (suc n) h v =
      Reads->>= m _ (c.reads x v.0)
        (Reads-map (repeat n m) (λ ys. x ∷ ys) (repeat-Reads xs n (omega arith) v.1))

  repeat_only :
      (n : ℕ) (used : List ℕ) (xs : List A)
      → All IsByte used
      → Reads (repeat n m) used xs
      → (used ≡ concat_map e xs) × ((length xs ≡ n) × All V xs)
  unfolding repeat
  repeat_only zero used xs b h =
      let (u, p) = Reads-pure_inv h in
      (u ∙ ap (concat_map e) p, (ap length (sym p), subst (All V) p tt))
  repeat_only (suc n) used xs b h =
      let (x, u, w, s, r, k) =
        Reads->>=_inv m _ c.local
          (λ x. >>=-IsLocal (repeat n m) _ (repeat-IsLocal n m c.local) (λ xs. pure-IsLocal _)) h in
      let (ys, u', w', s', r', k') =
        Reads->>=_inv (repeat n m) _ (repeat-IsLocal n m c.local) (λ xs. pure-IsLocal _) k in
      let (z, p) = Reads-pure_inv k' in
      let bs : All IsByte (u ++ w) = subst (All IsByte) s b in
      let bw : All IsByte (u' ++ w') = subst (All IsByte) s' (All-back IsByte u w bs) in
      let (eu, vx) = c.only u x (All-front IsByte u w bs) r in
      let (ew, (l, vs)) = repeat_only n u' ys (All-front IsByte u' w' bw) r' in
      (
        s
            ∙ (λ i. eu i ++ (s' ∙ (λ j. ew j ++ z j) ∙ append-nil (concat_map e ys)) i)
            ∙ ap (concat_map e) p,
        (ap length (sym p) ∙ ap suc l, subst (All V) p (vx, vs)),
      )

  -- `n` values, one after the other.
  pub repeat-Codec : (n : ℕ) → Codec (repeat n m) (λ xs. (length xs ≡ n) × All V xs) (concat_map e)
  repeat-Codec n = record {
    local = repeat-IsLocal n m c.local;
    reads = λ xs v. repeat-Reads xs n v.0 v.1;
    only = repeat_only n;
  }

-- What a codec says of its scanner on a string of bytes: exactly the valid values are returned,
-- each from its encoding, with the bytes behind it left.
pub Codec-accepts :
    {E A : Type 0} {m : Scan E A} {V : A → Type 0} {e : A → List ℕ}
    → Codec m V e
    → (s : List ℕ) (a : A) (rest : List ℕ) → All IsByte s
    → (m s ≡ (ok a, rest)) ↔ (V a × (s ≡ e a ++ rest))
Codec-accepts {m = m} {e = e} c s a rest b = (
  λ h.
      let (used, p, r) = c.local.at s a rest h in
      let (u, v) = c.only used a (All-front IsByte used rest (subst (All IsByte) p b)) r in
      (v, p ∙ ap (λ l. l ++ rest) u),
  λ (v, p). ap m p ∙ (c.reads a v).on rest,
)
