-- ===== src/Darkside/Counted.antt =====
-- A staged transaction in a block: the number of transactions stays in its CompactSize form.
use lightwalletd.Common.{
  ℕ, zero, suc, ◌+◌, ◌/◌, ◌%◌, ◌≤◌, ◌<◌, List, [], ◌∷◌, ◌++◌, ◌≡◌, refl, sym, ap, ◌∙◌, arith, true,
  inl, inr, Bool-cases, some, ok, ltb, leb, ltb→lt, ltb→le, lt→ltb, le→ltb, ◌==◌, ==_iff,
  if◌then◌else◌, length, take, drop, take_front, drop_past, get_elem?, set,
}
use lightwalletd.Bytestring.Words.{le_bytes}
use lightwalletd.CompactSize.{compact_size}
use lightwalletd.Darkside.Apply.{
  bump_at, increment, carry_if, carry, or_panic, widen, count_by, count_tx, with_tx, marked,
  append_tx,
}

get_elem?-past : (xs ys : List ℕ) (k : ℕ) → get_elem? (xs ++ ys) (length xs + k) ≡ get_elem? ys k
get_elem?-past [] ys k = ap (get_elem? ys) (omega arith)
get_elem?-past (x ∷ xs) ys k =
    ap (get_elem? (x ∷ (xs ++ ys))) (shift (length xs) k) ∙ get_elem?-past xs ys k
  where
    shift : (a b : ℕ) → suc a + b ≡ suc (a + b)
    shift a b = omega arith

set-past : (xs ys : List ℕ) (k v : ℕ) → set (xs ++ ys) (length xs + k) v ≡ xs ++ set ys k v
set-past [] ys k v = ap (λ n. set ys n v) (omega arith)
set-past (x ∷ xs) ys k v =
    ap (λ n. set (x ∷ (xs ++ ys)) n v) (shift (length xs) k) ∙ ap (λ l. x ∷ l) (set-past xs ys k v)
  where
    shift : (a b : ℕ) → suc a + b ≡ suc (a + b)
    shift a b = omega arith

-- An increment behind the header.
increment-past :
    (hdr ys : List ℕ) (k b i : ℕ)
    → length hdr + k ≡ i
    → get_elem? ys k ≡ some b
    → increment i (hdr ++ ys) ≡ some (hdr ++ set ys k ((b + 1) % 256))
unfolding increment
increment-past hdr ys k b i e h =
    ap (bump_at i (hdr ++ ys)) (ap (get_elem? (hdr ++ ys)) (sym e) ∙ get_elem?-past hdr ys k ∙ h)
    ∙ ap some
        (ap (λ n. set (hdr ++ ys) n ((b + 1) % 256)) (sym e) ∙ set-past hdr ys k ((b + 1) % 256))

small_form : (n : ℕ) → n < 253 → compact_size n ≡ n ∷ []
unfolding compact_size
small_form n h = rw (lt→ltb n 253 h) refl

word_form : (n : ℕ) → 253 ≤ n → n ≤ 65535 → compact_size n ≡ 253 ∷ (n % 256) ∷ (n / 256) % 256 ∷ []
unfolding compact_size le_bytes
word_form n h k = let within : leb n 65535 ≡ true = ground arith in rw (le→ltb n 253 h, within) refl

-- The high byte of the next number.
next_high :
    (n : ℕ)
    → ((n + 1) / 256) % 256
      ≡ (if (n + 1) % 256 == 0 then ((n / 256) % 256 + 1) % 256 else (n / 256) % 256)
next_high n = elim (Bool-cases ((n + 1) % 256 == 0)) [
  | inl wraps ↦
      let e : (n + 1) % 256 ≡ 0 = (==_iff ((n + 1) % 256) 0).0 wraps in
      let q : (n + 1) / 256 ≡ n / 256 + 1 = omega arith in rw (wraps, q) (omega arith)
  | inr stays ↦
      let e : ¬ ((n + 1) % 256 ≡ 0) = ground arith in
      let q : (n + 1) / 256 ≡ n / 256 = omega arith in rw (stays, q) refl
]

module _ (hdr rest : List ℕ) (whole : length hdr ≡ 1487) where
  first_at : (ys : List ℕ) → get_elem? (hdr ++ ys) 1487 ≡ get_elem? ys 0
  first_at ys =
      let e : 1487 ≡ length hdr + 0 = omega arith in
      ap (get_elem? (hdr ++ ys)) e ∙ get_elem?-past hdr ys 0

  count_small : (n : ℕ) → n < 252 → count_tx (hdr ++ n ∷ rest) ≡ ok (hdr ++ (n + 1) ∷ rest)
  unfolding count_tx
  count_small n h =
      rw
        (
          first_at (n ∷ rest),
          lt→ltb n 252 h,
          increment-past hdr (n ∷ rest) 0 n 1487 (omega arith) refl,
        )
        (ap (λ b. ok (hdr ++ b ∷ rest)) (omega arith))

  widen-past : widen (hdr ++ 252 ∷ rest) ≡ hdr ++ 253 ∷ 253 ∷ 0 ∷ rest
  widen-past =
      let front : take 1487 (hdr ++ 252 ∷ rest) ≡ hdr =
        ap (λ n. take n (hdr ++ 252 ∷ rest)) (sym whole) ∙ take_front hdr (252 ∷ rest) in
      let behind : 1488 ≡ length hdr + 1 = omega arith in
      let back : drop 1488 (hdr ++ 252 ∷ rest) ≡ rest =
        ap (λ n. drop n (hdr ++ 252 ∷ rest)) behind ∙ drop_past hdr (252 ∷ rest) 1 in
      λ i. front i ++ 253 ∷ 253 ∷ 0 ∷ back i

  count_252 : count_tx (hdr ++ 252 ∷ rest) ≡ ok (hdr ++ 253 ∷ 253 ∷ 0 ∷ rest)
  unfolding count_tx
  count_252 = rw (first_at (252 ∷ rest)) (ap ok widen-past)

  carry-past :
      (low high high' : ℕ)
      → high' ≡ (if low == 0 then (high + 1) % 256 else high)
      → carry_if (hdr ++ 253 ∷ low ∷ high ∷ rest) (some low)
        ≡ some (hdr ++ 253 ∷ low ∷ high' ∷ rest)
  carry-past low high high' f = elim (Bool-cases (low == 0)) [
    | inl wraps ↦
        let f' : high' ≡ (high + 1) % 256 = rw wraps at f in
        rw wraps (
          increment-past hdr (253 ∷ low ∷ high ∷ rest) 2 high 1489 (omega arith) refl
          ∙ ap (λ b. some (hdr ++ 253 ∷ low ∷ b ∷ rest)) (sym f'))
    | inr stays ↦
        let f' : high' ≡ high = rw stays at f in
        rw stays (ap (λ b. some (hdr ++ 253 ∷ low ∷ b ∷ rest)) (sym f'))
  ]

  second_at : (a b : ℕ) (ys : List ℕ) → get_elem? (hdr ++ a ∷ b ∷ ys) 1488 ≡ some b
  second_at a b ys =
      let e : 1488 ≡ length hdr + 1 = omega arith in
      ap (get_elem? (hdr ++ a ∷ b ∷ ys)) e ∙ get_elem?-past hdr (a ∷ b ∷ ys) 1

  count_word :
      (low high low' high' : ℕ)
      → low' ≡ (low + 1) % 256
      → high' ≡ (if low' == 0 then (high + 1) % 256 else high)
      → count_tx (hdr ++ 253 ∷ low ∷ high ∷ rest) ≡ ok (hdr ++ 253 ∷ low' ∷ high' ∷ rest)
  unfolding count_tx
  count_word low high low' high' e f =
      ap (count_by (hdr ++ 253 ∷ low ∷ high ∷ rest)) (first_at (253 ∷ low ∷ high ∷ rest))
      ∙ ap or_panic (
          ap carry (
            increment-past hdr (253 ∷ low ∷ high ∷ rest) 1 low 1488 (omega arith) refl
            ∙ ap (λ b. some (hdr ++ 253 ∷ b ∷ high ∷ rest)) (sym e))
          ∙ ap (carry_if (hdr ++ 253 ∷ low' ∷ high ∷ rest)) (second_at 253 low' (high ∷ rest))
          ∙ carry-past low' high high' f)

  counted :
      (n : ℕ) (a b : List ℕ)
      → compact_size n ≡ a
      → compact_size (n + 1) ≡ b
      → count_tx (hdr ++ (a ++ rest)) ≡ ok (hdr ++ (b ++ rest))
      → count_tx (hdr ++ (compact_size n ++ rest)) ≡ ok (hdr ++ (compact_size (n + 1) ++ rest))
  counted n a b e f h =
      ap (λ c. count_tx (hdr ++ (c ++ rest))) e ∙ h ∙ ap (λ c. ok (hdr ++ (c ++ rest))) (sym f)

  -- The number of transactions in front of `rest` is incremented, in its CompactSize form, if it is
  -- below 65535 and the header has 1487 bytes.
  pub count_tx-compact_size :
      (n : ℕ)
      → n < 65535
      → count_tx (hdr ++ (compact_size n ++ rest)) ≡ ok (hdr ++ (compact_size (n + 1) ++ rest))
  count_tx-compact_size n h = elim (Bool-cases (ltb n 252)) [
    | inl small ↦
        let l : n < 252 = ltb→lt n 252 small in
        counted n (n ∷ []) ((n + 1) ∷ []) (small_form n (omega arith))
          (small_form (n + 1) (omega arith)) (count_small n l)
    | inr more ↦ elim (Bool-cases (n == 252)) [
      | inl edge ↦
          let e : n ≡ 252 = (==_iff n 252).0 edge in
          rw e (
            counted 252 (252 ∷ []) (253 ∷ 253 ∷ 0 ∷ []) (small_form 252 (omega arith))
              (word_form 253 (omega arith) (omega arith)) count_252)
      | inr above ↦
          let l : 253 ≤ n = ground (arith, ltb→le n 252 more) in
          counted n _ _ (word_form n l (omega arith))
            (word_form (n + 1) (omega arith) (omega arith))
            (count_word (n % 256) ((n / 256) % 256) ((n + 1) % 256) (((n + 1) / 256) % 256)
              (omega arith) (next_high n))
    ]
  ]

get_elem?-front :
    (xs ys : List ℕ) (i b : ℕ) → get_elem? xs i ≡ some b → get_elem? (xs ++ ys) i ≡ some b
get_elem?-front [] ys i b h = absurd (ground arith)
get_elem?-front (x ∷ xs) ys zero b h = h
get_elem?-front (x ∷ xs) ys (suc i) b h = get_elem?-front xs ys i b h

set-front :
    (xs ys : List ℕ) (i b v : ℕ) → get_elem? xs i ≡ some b → set (xs ++ ys) i v ≡ set xs i v ++ ys
set-front [] ys i b v h = absurd (ground arith)
set-front (x ∷ xs) ys zero b v h = refl
set-front (x ∷ xs) ys (suc i) b v h = ap (λ l. x ∷ l) (set-front xs ys i b v h)

increment-front :
    (xs ys : List ℕ) (i b : ℕ)
    → get_elem? xs i ≡ some b
    → increment i (xs ++ ys) ≡ some (set xs i ((b + 1) % 256) ++ ys)
unfolding increment
increment-front xs ys i b h =
    ap (bump_at i (xs ++ ys)) (get_elem?-front xs ys i b h)
    ∙ ap some (set-front xs ys i b ((b + 1) % 256) h)

-- A transaction that is put into a block of a header of 1487 bytes, the number of its transactions,
-- below 65535, in its CompactSize form, and these: it is behind them, their number is one more in its
-- CompactSize form, and of the header the byte at 68 is incremented.
pub append_tx-compact_size :
    (hdr rest tx_bytes : List ℕ) (n b : ℕ)
    → length hdr ≡ 1487
    → n < 65535
    → get_elem? hdr 68 ≡ some b
    → append_tx tx_bytes (hdr ++ (compact_size n ++ rest))
      ≡ ok (set hdr 68 ((b + 1) % 256) ++ (compact_size (n + 1) ++ rest) ++ tx_bytes)
unfolding append_tx
append_tx-compact_size hdr rest tx_bytes n b whole h e =
    ap (marked tx_bytes) (count_tx-compact_size hdr rest whole n h)
    ∙ ap (with_tx tx_bytes) (increment-front hdr (compact_size (n + 1) ++ rest) 68 b e)
