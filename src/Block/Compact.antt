-- ===== src/Block/Compact.antt =====
-- `Block.ToCompact`: which transactions the compact block has.
use mathlib.Core.List.{map}
use mathlib.Core.Option.{some-injective, none-ne-some}
use mathlib.Core.Path.{subst}
use lightwalletd.Common.{
  ◌≤◌, sym, length, take, true, inl, inr, ◌⊎◌, Bool-cases, ℕ, zero, suc, ◌+◌, List, [], ◌∷◌, ◌≡◌,
  ◌↔◌, refl, arith, some, get_elem?, false,
}
use native.Mathlib.Nat.{add-zero}
use lightwalletd.Transaction.{
  Transaction, CompactTx, has_sapling_elements, tx_encodable_hash, spend_to_compact,
  output_to_compact, tx_to_compact,
}
use lightwalletd.Block.Defs.{Block, compact_vtx, has_sapling_in}

module _ (sha256 : List ℕ → List ℕ) where
  -- What a transaction's entry has: its place, the double hash of its bytes, the nullifiers of its
  -- spends, and of its outputs the commitment, the key and the first 52 bytes of the ciphertext. It has
  -- one if it is of version 4 or later and has a spend or an output.
  pub record IsEntry (tx : Transaction) (i : ℕ) (c : CompactTx) : Type 0 where
    pub version : 4 ≤ tx.version
    pub some_sapling : 1 ≤ length tx.shielded_spends + length tx.shielded_outputs
    pub index : c.index ≡ i
    pub hash : c.hash ≡ sha256 (sha256 tx.raw_bytes)
    pub spends : c.spends ≡ map (λ s. s.nullifier) tx.shielded_spends
    pub outputs :
        c.outputs
        ≡ map
            (λ o. record {
              cmu = o.cmu;
              epk = o.ephemeral_key;
              ciphertext = take 52 o.enc_ciphertext;
            })
            tx.shielded_outputs

  abbrev pub IsIn : CompactTx → List CompactTx → Type 0
  IsIn c [] = ⊥
  IsIn c (d ∷ ds) = (d ≡ c) ⊎ IsIn c ds

  -- The entry of some transaction of the list, whose first one has the place `idx`.
  abbrev pub IsEntryOf : ℕ → List Transaction → CompactTx → Type 0
  IsEntryOf idx txs c =
      (k : ℕ) × (tx : Transaction) × (get_elem? txs k ≡ some tx) × IsEntry tx (idx + k) c

  -- Each entry's place is behind that of the entry before it.
  abbrev pub IsAscending : ℕ → List CompactTx → Type 0
  IsAscending at [] = Unit {0}
  IsAscending at (c ∷ cs) = (at ≤ c.index) × IsAscending (c.index + 1) cs

  tx_to_compact-IsEntry :
      (tx : Transaction) (i : ℕ)
      → has_sapling_elements tx ≡ true
      → IsEntry tx i (tx_to_compact sha256 tx i)
  unfolding has_sapling_elements tx_to_compact tx_encodable_hash spend_to_compact output_to_compact
  tx_to_compact-IsEntry tx i h = record {
    version = ground arith;
    some_sapling = ground arith;
    index = refl;
    hash = refl;
    spends = refl;
    outputs = refl;
  }

  -- An entry's fields are determined.
  only_entry :
      (tx : Transaction) (i : ℕ) (c : CompactTx) → IsEntry tx i c → tx_to_compact sha256 tx i ≡ c
  unfolding tx_to_compact tx_encodable_hash spend_to_compact output_to_compact
  only_entry tx i c e =
      sym λ j. record {
        index = e.index j;
        hash = e.hash j;
        spends = e.spends j;
        outputs = e.outputs j;
      }

  is_sapling :
      (tx : Transaction) (i : ℕ) (c : CompactTx) → IsEntry tx i c → has_sapling_elements tx ≡ true
  unfolding has_sapling_elements
  is_sapling tx i c e = let v = e.version in let s = e.some_sapling in ground (arith, v, s)

  next_place :
      (idx : ℕ) (tx : Transaction) (txs : List Transaction) (c : CompactTx)
      → IsEntryOf (idx + 1) txs c
      → IsEntryOf idx (tx ∷ txs) c
  next_place idx tx txs c (k, t, at_k, e) =
      (suc k, t, at_k, subst (λ n. IsEntry t n c) (shift idx k) e)
    where
      shift : (a b : ℕ) → a + 1 + b ≡ a + suc b
      shift a b = omega arith

  IsIn-compact_vtx :
      (idx : ℕ) (txs : List Transaction) (c : CompactTx)
      → IsIn c (compact_vtx sha256 idx txs)
      → IsEntryOf idx txs c
  unfolding compact_vtx
  IsIn-compact_vtx idx [] c m = absurd m
  IsIn-compact_vtx idx (tx ∷ txs) c m = elim (Bool-cases (has_sapling_elements tx)) [
    | inr skipped ↦ next_place idx tx txs c (IsIn-compact_vtx (idx + 1) txs c (rw skipped at m))
    | inl taken ↦
        let m' : (tx_to_compact sha256 tx idx ≡ c) ⊎ IsIn c (compact_vtx sha256 (idx + 1) txs) =
          rw taken at m in
        elim m' [
          | inl here ↦ (
            0,
            tx,
            refl,
            subst (IsEntry tx (idx + 0)) here (
                subst (λ n. IsEntry tx n (tx_to_compact sha256 tx idx)) (sym (add-zero idx))
                  (tx_to_compact-IsEntry tx idx taken)),
          )
          | inr later ↦ next_place idx tx txs c (IsIn-compact_vtx (idx + 1) txs c later)
        ]
  ]

  later_IsIn :
      (idx : ℕ) (tx : Transaction) (txs : List Transaction) (c : CompactTx)
      → IsIn c (compact_vtx sha256 (idx + 1) txs)
      → IsIn c (compact_vtx sha256 idx (tx ∷ txs))
  unfolding compact_vtx
  later_IsIn idx tx txs c m = elim (Bool-cases (has_sapling_elements tx)) [
    | inl taken ↦ rw taken (inr m)
    | inr skipped ↦ rw skipped m
  ]

  IsEntryOf-IsIn :
      (idx k : ℕ) (txs : List Transaction) (tx : Transaction) (c : CompactTx)
      → get_elem? txs k ≡ some tx
      → IsEntry tx (idx + k) c
      → IsIn c (compact_vtx sha256 idx txs)
  unfolding compact_vtx
  IsEntryOf-IsIn idx k [] tx c at_k e = absurd (none-ne-some tx at_k)
  IsEntryOf-IsIn idx zero (t ∷ txs) tx c at_k e =
      let e' : IsEntry t idx c =
        subst (λ x. IsEntry x idx c) (sym (some-injective t tx at_k))
          (subst (λ n. IsEntry tx n c) (add-zero idx) e) in
      rw (is_sapling t idx c e') (inl (only_entry t idx c e'))
  IsEntryOf-IsIn idx (suc k) (t ∷ txs) tx c at_k e =
      later_IsIn idx t txs c
        (IsEntryOf-IsIn (idx + 1) k txs tx c at_k (subst (λ n. IsEntry tx n c) (shift idx k) e))
    where
      shift : (a b : ℕ) → a + suc b ≡ a + 1 + b
      shift a b = omega arith

  earlier-IsAscending :
      (at at' : ℕ) (cs : List CompactTx) → at ≤ at' → IsAscending at' cs → IsAscending at cs
  earlier-IsAscending at at' [] h k = tt
  earlier-IsAscending at at' (c ∷ cs) h k = (omega (arith, h, k.0), k.1)

  compact_vtx-IsAscending :
      (idx : ℕ) (txs : List Transaction) → IsAscending idx (compact_vtx sha256 idx txs)
  unfolding compact_vtx tx_to_compact
  compact_vtx-IsAscending idx [] = tt
  compact_vtx-IsAscending idx (tx ∷ txs) =
      let ih = compact_vtx-IsAscending (idx + 1) txs in
      elim (Bool-cases (has_sapling_elements tx)) [
        | inl taken ↦ rw taken (omega arith, ih)
        | inr skipped ↦
            rw skipped (
              earlier-IsAscending idx (idx + 1) (compact_vtx sha256 (idx + 1) txs) (omega arith) ih)
      ]

  -- The compact block has an entry exactly for each transaction of version 4 or later with a Sapling
  -- spend or output: its place, hash, nullifiers and short outputs; and the places ascend, so that none
  -- has two.
  pub compact_vtx-IsEntryOf :
      (b : Block)
      → ((c : CompactTx) → IsIn c (compact_vtx sha256 0 b.vtx) ↔ IsEntryOf 0 b.vtx c)
        × IsAscending 0 (compact_vtx sha256 0 b.vtx)
  compact_vtx-IsEntryOf b = (
    λ c. (IsIn-compact_vtx 0 b.vtx c, λ (k, tx, at_k, e). IsEntryOf-IsIn 0 k b.vtx tx c at_k e),
    compact_vtx-IsAscending 0 b.vtx,
  )

  -- There is an entry exactly if `HasSaplingTransactions` says so.
  pub compact_vtx-nil :
      (idx : ℕ) (txs : List Transaction)
      → (compact_vtx sha256 idx txs ≡ []) ↔ (has_sapling_in txs ≡ false)
  unfolding compact_vtx has_sapling_in
  compact_vtx-nil idx [] = ((λ h. refl), λ h. refl)
  compact_vtx-nil idx (tx ∷ txs) = ground (arith, compact_vtx-nil (idx + 1) txs)
