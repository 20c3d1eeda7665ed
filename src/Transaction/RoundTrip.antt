-- ===== src/Transaction/RoundTrip.antt =====
-- The transaction parser and the wire format are inverse to one another.
use mathlib.Core.Path.{subst}
use lightwalletd.Common.{
  ℕ, ◌+◌, ◌<◌, ◌^◌, List, [], ◌≡◌, refl, sym, append-nil, append_assoc, length, arith, Error,
  String, Bool, true, false, ◌&&◌, ltb, leb, if◌then◌else◌,
}
use lightwalletd.Common.Int.{IsInt64}
use lightwalletd.Scan.{Scan, pure, check}
use lightwalletd.Scan.Local.{IsLocal, local_rules}
use lightwalletd.Scan.Codec.{
  Codec, Codec-iff, >>=-Codec, >>=-Codec_valid, pure-Codec, wrapping-Codec, if-Codec, map-Codec,
  repeat-Codec,
}
use lightwalletd.Bytestring.{read_bytes, read_uint32}
use lightwalletd.Bytestring.Words.{le_bytes}
use lightwalletd.Bytestring.Bytes.{read_bytes-Codec, read_uint32-Codec, read_int64-Codec}
use lightwalletd.CompactSize.RoundTrip.{compact_size-Codec}
use lightwalletd.Transaction.Defs.{parse_tx_out}
use lightwalletd.Transaction.Whole.{
  SaplingPart, SproutPart, read_header, read_many, read_sapling, read_sprout, parse_raw,
}
use lightwalletd.Transaction.Parts.{
  IsSizedSpend, IsSizedOutput, tx_in-Codec, tx_out-Codec, spend-Codec, output-Codec,
}
use lightwalletd.Transaction.Sprout.{IsSizedJoinSplit, join_split-Codec}
use lightwalletd.Transaction.Format.{
  header_word, IsCounted, counted_bytes, no_sapling, IsSizedSapling, sapling_bytes, no_sprout,
  IsSizedIf, IsSizedSprout, bytes_if, sprout_bytes, sapling_of, sprout_of, IsWordIf,
  IsSizedTransaction, transaction_bytes,
}

-- A step that reads nothing.
nothing-Codec : {E A : Type 0} (r : A) → Codec (pure {E = E} r) (λ a. a ≡ r) (λ _. [])
nothing-Codec r =
    Codec-iff (pure-Codec (λ a. a ≡ r) (λ _. Unit {0}) r (refl, tt) (λ c k _. sym k))
      (λ a w. ((w, tt), refl)) (λ a v. (v.0, refl))

read_header-Codec : Codec read_header (λ p. p.1 < 2 ^ 31) (λ p. le_bytes 4 (header_word p))
unfolding read_header
read_header-Codec =
    map-Codec _ header_word (λ p. p.1 < 2 ^ 31) (wrapping-Codec _ read_uint32-Codec)
      (λ p w. ground arith) (λ h v. ground arith)

read_many-Codec :
    {A : Type 0} (m n : String) {part : Scan Error A} {V : A → Type 0} {e : A → List ℕ}
    → Codec part V e
    → Codec (read_many m n part) (IsCounted V) (counted_bytes e)
unfolding read_many
read_many-Codec m n c =
    Codec-iff
      (>>=-Codec (λ p. p.0) (λ _. Unit {0}) (wrapping-Codec _ compact_size-Codec)
        λ a.
          >>=-Codec (λ p. p.1) _ (repeat-Codec (wrapping-Codec _ c) a)
            λ b. pure-Codec _ (λ _. Unit {0}) _ (ground arith) (λ x k _. ground arith))
      (λ p w. ((tt, (w.0, ((w.1, w.2), tt))), simp append-nil))
      (λ p v. ((v.1.0, v.1.1.0.0, v.1.1.0.1), simp append-nil))

read_sapling-Codec :
    (version : ℕ) → Codec (read_sapling version) (IsSizedSapling version) (sapling_bytes version)
unfolding read_sapling
read_sapling-Codec version =
    if-Codec (leb 4 version)
      (Codec-iff
        (>>=-Codec (λ s. s.value_balance) (λ _. Unit {0}) (wrapping-Codec _ read_int64-Codec)
          λ a.
            >>=-Codec (λ s. s.spends) _ (read_many-Codec _ _ spend-Codec)
              λ b.
                >>=-Codec (λ s. s.outputs) _ (read_many-Codec _ _ output-Codec)
                  λ c. pure-Codec _ (λ _. Unit {0}) _ (ground arith) (λ x k _. ground arith))
        (λ s w. ((tt, (w.0, (w.1, (w.2, tt)))), simp (append-nil, append_assoc)))
        (λ s v. ((v.1.0, v.1.1.0, v.1.1.1.0), simp (append-nil, append_assoc))))
      (nothing-Codec no_sapling)

read_if-Codec :
    (message : String) (present : Bool) (n : ℕ)
    → Codec
        (if present then check message (read_bytes n) else pure [])
        (IsSizedIf present n)
        (bytes_if present)
read_if-Codec message present n =
    if-Codec present (wrapping-Codec _ (read_bytes-Codec n)) (nothing-Codec [])

read_sprout-Codec :
    (version : ℕ) → Codec (read_sprout version) (IsSizedSprout version) (sprout_bytes version)
unfolding read_sprout
read_sprout-Codec version =
    if-Codec (leb 2 version)
      (Codec-iff
        (>>=-Codec (λ s. s.join_splits) (λ _. Unit {0})
          (read_many-Codec _ _ (join_split-Codec version))
          λ a.
            >>=-Codec (λ s. s.pub_key) _ (read_if-Codec _ (ltb 0 a.0) 32)
              λ b.
                >>=-Codec (λ s. s.sig) _ (read_if-Codec _ (ltb 0 a.0) 64)
                  λ c. pure-Codec _ (λ _. Unit {0}) _ (ground arith) (λ x k _. ground arith))
        (λ s w. ((tt, (w.0, (w.1, (w.2, tt)))), simp (append-nil, append_assoc)))
        (λ s v. ((v.1.0, v.1.1.0, v.1.1.1.0), simp (append-nil, append_assoc))))
      (nothing-Codec no_sprout)

read_bytes-IsLocal : (n : ℕ) → IsLocal (read_bytes n)
read_bytes-IsLocal n = (read_bytes-Codec n).local

read_uint32-IsLocal : IsLocal read_uint32
read_uint32-IsLocal = read_uint32-Codec.local

read_tx_outs-IsLocal : (m n : String) → IsLocal (read_many m n parse_tx_out)
read_tx_outs-IsLocal m n = (read_many-Codec m n tx_out-Codec).local

read_sapling-IsLocal : (version : ℕ) → IsLocal (read_sapling version)
read_sapling-IsLocal version = (read_sapling-Codec version).local

read_sprout-IsLocal : (version : ℕ) → IsLocal (read_sprout version)
read_sprout-IsLocal version = (read_sprout-Codec version).local

read_optional-Codec :
    (message : String) (present : Bool)
    → Codec
        (if present then check message read_uint32 else pure 0)
        (IsWordIf present)
        (λ w. bytes_if present (le_bytes 4 w))
read_optional-Codec message present =
    if-Codec present (wrapping-Codec _ read_uint32-Codec) (nothing-Codec 0)

counted_eq :
    {A : Type 0} (p : ℕ × List A) → length p.1 ≡ p.0 → ◌≡◌ {A = ℕ × List A} (length p.1, p.1) p
counted_eq p e = λ i. (e i, p.1)

-- The counts that the parser keeps are the lengths of the lists.
with_lengths : SaplingPart → SaplingPart
with_lengths g = record g {
  spends = (length g.spends.1, g.spends.1);
  outputs = (length g.outputs.1, g.outputs.1);
}

sapling_eq :
    (present : Bool) (g : SaplingPart)
    → (if present
        then IsInt64 g.value_balance
          × IsCounted IsSizedSpend g.spends
          × IsCounted IsSizedOutput g.outputs
        else g ≡ no_sapling)
    → with_lengths g ≡ g
unfolding with_lengths
sapling_eq true g v =
    λ i. record g { spends = counted_eq g.spends v.1.1 i; outputs = counted_eq g.outputs v.2.1 i }
sapling_eq false g e = subst (λ g. with_lengths g ≡ g) (sym e) refl

with_length : SproutPart → SproutPart
with_length h = record h { join_splits = (length h.join_splits.1, h.join_splits.1) }

sprout_eq :
    (version : ℕ) (present : Bool) (h : SproutPart)
    → (if present
        then IsCounted (IsSizedJoinSplit version) h.join_splits
          × IsSizedIf (ltb 0 h.join_splits.0) 32 h.pub_key
          × IsSizedIf (ltb 0 h.join_splits.0) 64 h.sig
        else h ≡ no_sprout)
    → with_length h ≡ h
unfolding with_length
sprout_eq version true h v = λ i. record h { join_splits = counted_eq h.join_splits v.0.1 i }
sprout_eq version false h e = subst (λ h. with_length h ≡ h) (sym e) refl

ruleset tx_rules = (
  local_rules, read_bytes-IsLocal, read_uint32-IsLocal, read_tx_outs-IsLocal, read_sapling-IsLocal,
  read_sprout-IsLocal,
)

pub transaction-Codec : Codec parse_raw IsSizedTransaction transaction_bytes
unfolding parse_raw with_lengths with_length
transaction-Codec =
    Codec-iff
      (>>=-Codec (λ t. (t.f_overwintered, t.version)) (λ _. Unit {0}) read_header-Codec
        λ a.
          >>=-Codec (λ t. t.n_version_group_id) _ (read_optional-Codec _ (leb 3 a.1))
            λ b.
              >>=-Codec_valid (λ t. (length t.transparent_inputs, t.transparent_inputs)) _
                (read_many-Codec _ _ tx_in-Codec) (λ c. search tx_rules depth 12)
                λ c vc.
                  >>=-Codec_valid (λ t. (length t.transparent_outputs, t.transparent_outputs)) _
                    (read_many-Codec _ _ tx_out-Codec) (λ d. search tx_rules depth 12)
                    λ d vd.
                      >>=-Codec (λ t. t.n_lock_time) _ (wrapping-Codec _ read_uint32-Codec)
                        λ e.
                          >>=-Codec (λ t. t.n_expiry_height) _ (read_optional-Codec _ a.0)
                            λ f.
                              >>=-Codec_valid sapling_of _ (read_sapling-Codec a.1)
                                (λ g. search tx_rules depth 12)
                                λ g vg.
                                  >>=-Codec_valid sprout_of _ (read_sprout-Codec a.1)
                                    (λ h. search tx_rules depth 12)
                                    λ h vh.
                                      >>=-Codec (λ t. t.binding_sig) _
                                        (read_if-Codec _
                                          (leb 4 a.1 && ltb 0 (g.spends.0 + g.outputs.0)) 64)
                                        λ i.
                                          pure-Codec _ (λ _. Unit {0}) _
                                            (
                                              (
                                                (
                                                  (
                                                    (
                                                      (
                                                        (
                                                          (((tt, refl), refl), counted_eq c vc.1),
                                                          counted_eq d vd.1,
                                                        ),
                                                        refl,
                                                      ),
                                                      refl,
                                                    ),
                                                    sapling_eq (leb 4 a.1) g vg,
                                                  ),
                                                  sprout_eq a.1 (leb 2 a.1) h vh,
                                                ),
                                                refl,
                                              ),
                                              tt,
                                            )
                                            (λ t k _. ground arith))
      (λ t w. (
        (
          tt,
          (
            w.version,
            (
              w.version_group,
              (
                w.inputs,
                (
                  w.outputs,
                  (w.lock_time, (w.expiry_height, (w.sapling, (w.sprout, (w.binding, tt))))),
                ),
              ),
            ),
          ),
        ),
        simp append-nil,
      ))
      (λ t (_, (a, (b, (c, (d, (e, (f, (g, (h, (i, _)))))))))). (
        record {
          version = a;
          version_group = b;
          inputs = c;
          outputs = d;
          lock_time = e;
          expiry_height = f;
          sapling = g;
          sprout = h;
          binding = i;
        },
        simp append-nil,
      ))
