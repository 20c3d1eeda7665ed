-- ===== src/CompactSize/RoundTrip.antt =====
-- What the reader and the writers of a CompactSize have to do with one another.
use mathlib.Core.Path.{subst, fun_ext}
use lightwalletd.Common.{
  ℕ, ◌^◌, ◌≤◌, ◌<◌, List, [], ◌∷◌, ◌++◌, ◌≡◌, refl, sym, ap, ◌∙◌, append-nil, ok, ltb, leb,
  if◌then◌else◌, length, All, IsByte, arith, ◌||◌, ◌⊎◌, ◌↔◌, inl, inr, Bool-cases, ltb→lt, true,
}
use lightwalletd.Scan.{Read, pure, fail, ◌>>=◌}
use lightwalletd.Scan.Local.{
  Reads, IsLocal, >>=-IsLocal, Reads->>=, Reads->>=_inv, Reads-fail_inv, local_rules,
}
use lightwalletd.Scan.Codec.{Codec, Codec-accepts, Codec-iff, >>=-Codec}
use lightwalletd.Bytestring.{
  read, compact_form, compact_tail, compact_body, read_compact_size, max_compact_size, first_byte,
  read_bytes, read_compact_length_prefixed,
}
use lightwalletd.Bytestring.Bytes.{
  read_bytes-Codec, word, word-IsLocal, word-Codec, Reads-read, Reads-read_inv, read-IsLocal,
}
use lightwalletd.Bytestring.Words.{le_bytes}
use lightwalletd.CompactSize.Defs.{lead, trail, compact_size}

-- The last test of `ReadCompactSize`.
bounded : ℕ → ℕ → Read ℕ
bounded min_size length =
    if ltb max_compact_size length || ltb length min_size then fail tt else pure length

bounded-IsLocal : (m n : ℕ) → IsLocal (bounded m n)
unfolding bounded
bounded-IsLocal m n = search local_rules

Reads-bounded : (m n : ℕ) → m ≤ n → n ≤ max_compact_size → Reads (bounded m n) [] n
unfolding bounded pure fail
Reads-bounded m n lo hi = record { on = λ more. ground arith }

Reads-bounded_inv :
    (m l : ℕ) {used : List ℕ} {n : ℕ}
    → Reads (bounded m l) used n
    → (used ≡ []) × (l ≡ n) × (m ≤ n) × (n ≤ max_compact_size)
unfolding bounded pure fail
Reads-bounded_inv m l {used} {n} h = ground (arith, h.on [], append-nil used)

-- `compact_body` on each kind of first byte.
compact_body_small : (b : ℕ) → b < 253 → compact_body b ≡ bounded 0 b
unfolding compact_body compact_form compact_tail bounded ◌>>=◌
compact_body_small b h = fun_ext λ s. ground arith

compact_body_two : compact_body 253 ≡ (word 8 2 >>= λ l. bounded 253 l)
unfolding compact_body compact_form compact_tail bounded word ◌>>=◌
compact_body_two = refl

compact_body_four : compact_body 254 ≡ (word 8 4 >>= λ l. bounded 0x10000 l)
unfolding compact_body compact_form compact_tail bounded word ◌>>=◌
compact_body_four = refl

compact_body_eight : compact_body 255 ≡ fail tt
unfolding compact_body compact_form compact_tail ◌>>=◌
compact_body_eight = refl

-- A longer form: the bytes of a word, then the test against the least value of that form.
long_form-IsLocal : (k lo : ℕ) → IsLocal (word 8 k >>= λ l. bounded lo l)
long_form-IsLocal k lo = >>=-IsLocal (word 8 k) _ (word-IsLocal 8 k) (bounded-IsLocal lo)

Reads-long_form :
    (k lo n : ℕ)
    → k ≤ 8
    → n < 256 ^ k
    → lo ≤ n
    → n ≤ max_compact_size
    → Reads (word 8 k >>= λ l. bounded lo l) (le_bytes k n) n
Reads-long_form k lo n f h l m =
    subst (λ u. Reads (word 8 k >>= λ l. bounded lo l) u n) (append-nil (le_bytes k n))
      (Reads->>= (word 8 k) _ ((word-Codec 8 k f).reads n h) (Reads-bounded lo n l m))

Reads-long_form_inv :
    (k lo : ℕ) {used : List ℕ} {n : ℕ}
    → k ≤ 8
    → All IsByte used
    → Reads (word 8 k >>= λ l. bounded lo l) used n
    → (used ≡ le_bytes k n) × (n < 256 ^ k) × (lo ≤ n) × (n ≤ max_compact_size)
Reads-long_form_inv k lo {used} {n} f b h =
    let (l, u, w, s, x, y) =
      Reads->>=_inv (word 8 k) _ (word-Codec 8 k f).local (bounded-IsLocal lo) h in
    let (wn, e, low, high) = Reads-bounded_inv lo l y in
    let us : used ≡ u = s ∙ ap (λ t. u ++ t) wn ∙ append-nil u in
    let (eu, fits) = (word-Codec 8 k f).only u l (subst (All IsByte) us b) x in
    (us ∙ eu ∙ ap (le_bytes k) e, subst (λ t. t < 256 ^ k) e fits, low, high)

within_four : (n : ℕ) → n ≤ max_compact_size → leb n 0xffffffff ≡ true
within_four n h = ground arith

body-Reads : (n : ℕ) → n ≤ max_compact_size → Reads (compact_body (lead n)) (trail n) n
body-Reads n h = elim (Bool-cases (ltb n 253)) [
  | inl small ↦
      rw (small, compact_body_small n (ltb→lt n 253 small)) (Reads-bounded 0 n (omega arith) h)
  | inr large ↦ elim (Bool-cases (leb n 0xffff)) [
    | inl two ↦
        rw (large, two, compact_body_two)
          (Reads-long_form 2 253 n (omega arith) (ground arith) (ground arith) h)
    | inr more ↦
        rw (large, more, within_four n h, compact_body_four)
          (Reads-long_form 4 0x10000 n (omega arith) (omega arith) (ground arith) h)
  ]
]

-- The encoding of a number in the range of each form.
compact_size_small : (n : ℕ) → n < 253 → compact_size n ≡ n ∷ []
unfolding compact_size
compact_size_small n h = ground arith

compact_size_two : (n : ℕ) → 253 ≤ n → n < 256 ^ 2 → compact_size n ≡ 253 ∷ le_bytes 2 n
unfolding compact_size
compact_size_two n l h = ground arith

compact_size_four : (n : ℕ) → 0x10000 ≤ n → n < 256 ^ 4 → compact_size n ≡ 254 ∷ le_bytes 4 n
unfolding compact_size
compact_size_four n l h = ground arith

first_byte-cases : (b : ℕ) → b < 256 → (b < 253) ⊎ ((b ≡ 253) ⊎ ((b ≡ 254) ⊎ (b ≡ 255)))
first_byte-cases b h = grind arith

body_only :
    (b : ℕ) {w : List ℕ} {n : ℕ}
    → b < 256
    → All IsByte w
    → Reads (compact_body b) w n
    → (b ∷ w ≡ compact_size n) × (n ≤ max_compact_size)
body_only b {w} {n} hb bs r = elim (first_byte-cases b hb) [
  | inl small ↦
      let (we, e, _, m) = Reads-bounded_inv 0 b (rw (compact_body_small b small) at r) in
      ((λ i. e i ∷ we i) ∙ sym (compact_size_small n (subst (λ t. t < 253) e small)), m)
  | inr (inl two) ↦
      let (we, f, l, m) =
        Reads-long_form_inv 2 253 (omega arith) bs (rw (two, compact_body_two) at r) in
      ((λ i. two i ∷ we i) ∙ sym (compact_size_two n l f), m)
  | inr (inr (inl four)) ↦
      let (we, f, l, m) =
        Reads-long_form_inv 4 0x10000 (omega arith) bs (rw (four, compact_body_four) at r) in
      ((λ i. four i ∷ we i) ∙ sym (compact_size_four n l f), m)
  | inr (inr (inr eight)) ↦ absurd (Reads-fail_inv tt (rw (eight, compact_body_eight) at r))
]

compact_body-IsLocal : (b : ℕ) → IsLocal (compact_body b)
unfolding compact_body compact_form compact_tail
compact_body-IsLocal b = search (local_rules, read-IsLocal)

-- One byte and nothing else was read by `read(1)`.
single : (x : List ℕ) → length x ≡ 1 → x ≡ first_byte x ∷ []
single [] h = absurd (omega arith)
single (b ∷ []) h = refl
single (b ∷ c ∷ x) h = absurd (omega arith)

-- The reader accepts exactly the canonical encodings of the numbers up to `maxCompactSize`.
pub compact_size-Codec : Codec read_compact_size (λ n. n ≤ max_compact_size) compact_size
unfolding read_compact_size
compact_size-Codec = record {
  local = >>=-IsLocal (read 1) _ (read-IsLocal 1) (λ x. compact_body-IsLocal (first_byte x));
  reads = λ n h.
      unfold compact_size in
      Reads->>= (read 1) _ (Reads-read (lead n ∷ []) 1 refl) (body-Reads n h);
  only = λ used n b r.
      let (x, u, w, s, rx, rw') =
        Reads->>=_inv (read 1) _ (read-IsLocal 1) (λ x. compact_body-IsLocal (first_byte x)) r in
      let (ux, one) = Reads-read_inv 1 rx in
      let whole : used ≡ first_byte x ∷ w = s ∙ ap (λ t. t ++ w) (ux ∙ single x one) in
      let bs : All IsByte (first_byte x ∷ w) = subst (All IsByte) whole b in
      let (e, m) = body_only (first_byte x) bs.0 bs.1 rw' in (whole ∙ e, m);
}

-- A byte string behind its length.
abbrev pub prefixed : List ℕ → List ℕ
prefixed bs = compact_size (length bs) ++ bs

pub read_compact_length_prefixed-Codec :
    Codec read_compact_length_prefixed (λ bs. length bs ≤ max_compact_size) prefixed
unfolding read_compact_length_prefixed read_bytes
read_compact_length_prefixed-Codec =
    Codec-iff
      (>>=-Codec length (λ _. Unit {0}) compact_size-Codec
        λ n. Codec-iff (read_bytes-Codec n) (λ bs v. (v.0.1, refl)) (λ bs e. (((tt, e), tt), refl)))
      (λ bs m. ((tt, (m, tt)), refl)) (λ bs v. (v.1.0, refl))

-- On a string of bytes `ReadCompactSize` returns `n` exactly if the string begins with the
-- canonical encoding of `n` and `n` is at most `maxCompactSize`; what is left is what follows it.
pub read_compact_size_accepts :
    (s : List ℕ) (n : ℕ) (rest : List ℕ)
    → All IsByte s
    → (read_compact_size s ≡ (ok n, rest)) ↔ ((n ≤ max_compact_size) × (s ≡ compact_size n ++ rest))
read_compact_size_accepts = Codec-accepts compact_size-Codec
