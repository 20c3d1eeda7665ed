-- ===== src/Transaction/Sprout.antt =====
-- JoinSplit descriptions: the proof that the transaction's version selects, and the whole.
use lightwalletd.Common.{
  ℕ, ◌<◌, ◌^◌, List, [], ◌++◌, ◌≡◌, refl, append-nil, length, arith, String, ◌||◌, ◌==◌, leb,
  if◌then◌else◌,
}
use lightwalletd.Scan.Codec.{
  Codec, Codec-iff, >>=-Codec, pure-Codec, wrapping-Codec, if-Codec, map-Codec, fail-Codec,
}
use lightwalletd.Bytestring.Words.{le_bytes}
use lightwalletd.Bytestring.Bytes.{read_bytes-Codec, read_uint64-Codec}
use lightwalletd.Transaction.Defs.{JoinSplit, read_pair, read_proof, parse_join_split}

abbrev AreSized : ℕ → List ℕ × List ℕ → Type 0
AreSized n p = (length p.0 ≡ n) × (length p.1 ≡ n)

read_pair-Codec :
    (message : String) (n : ℕ) → Codec (read_pair message n) (AreSized n) (λ p. p.0 ++ p.1)
unfolding read_pair
read_pair-Codec message n =
    Codec-iff
      (>>=-Codec (λ p. p.0) (λ _. Unit {0}) (wrapping-Codec _ (read_bytes-Codec n))
        λ a.
          >>=-Codec (λ p. p.1) _ (wrapping-Codec _ (read_bytes-Codec n))
            λ b. pure-Codec _ (λ _. Unit {0}) _ (ground arith) (λ x k _. ground arith))
      (λ p w. (assumption, simp append-nil)) (λ p v. (assumption, simp append-nil))

-- Versions 2 and 3 carry a PHGR13 proof, later ones a Groth16 proof, earlier ones none.
abbrev pub IsSizedProof : ℕ → List ℕ × List ℕ → Type 0
IsSizedProof version p =
    if version == 2 || version == 3
    then (length p.0 ≡ 296) × (p.1 ≡ [])
    else if leb 4 version
    then (p.0 ≡ []) × (length p.1 ≡ 192)
    else ⊥

abbrev pub proof_bytes : ℕ → List ℕ × List ℕ → List ℕ
proof_bytes version p =
    if version == 2 || version == 3 then p.0 else if leb 4 version then p.1 else []

read_proof-Codec :
    (version : ℕ) → Codec (read_proof version) (IsSizedProof version) (proof_bytes version)
unfolding read_proof
read_proof-Codec version =
    if-Codec (version == 2 || version == 3)
      (map-Codec (λ x. (x, [])) (λ p. p.0) (λ p. (length p.0 ≡ 296) × (p.1 ≡ []))
        (wrapping-Codec _ (read_bytes-Codec 296)) (λ p w. (w.0, ground arith))
        (λ a v. ((v, refl), refl)))
      (if-Codec (leb 4 version)
        (map-Codec (λ x. ([], x)) (λ p. p.1) (λ p. (p.0 ≡ []) × (length p.1 ≡ 192))
          (wrapping-Codec _ (read_bytes-Codec 192)) (λ p w. (w.1, ground arith))
          (λ a v. ((refl, v), refl)))
        (Codec-iff (fail-Codec (λ _. Unit {0}) (λ _. ⊥) _ (λ _. []) (λ c _ w. w)) (λ p w. absurd w)
          (λ p v. absurd v.1)))

-- The sizes that the wire format gives the parts of a JoinSplit of a transaction of that version.
pub record IsSizedJoinSplit (version : ℕ) (x : JoinSplit) : Type 0 where
  pub same_version : x.version ≡ version
  pub vpub_old : x.vpub_old < 2 ^ 64
  pub vpub_new : x.vpub_new < 2 ^ 64
  pub anchor : length x.anchor ≡ 32
  pub nullifiers : AreSized 32 x.nullifiers
  pub commitments : AreSized 32 x.commitments
  pub ephemeral_key : length x.ephemeral_key ≡ 32
  pub random_seed : length x.random_seed ≡ 32
  pub vmacs : AreSized 32 x.vmacs
  pub proof : IsSizedProof version (x.proof_phgr13, x.proof_groth16)
  pub enc_ciphertexts : AreSized 601 x.enc_ciphertexts

abbrev pub join_split_bytes : ℕ → JoinSplit → List ℕ
join_split_bytes version x =
    le_bytes 8 x.vpub_old
    ++ (le_bytes 8 x.vpub_new
        ++ (x.anchor
            ++ ((x.nullifiers.0 ++ x.nullifiers.1)
                ++ ((x.commitments.0 ++ x.commitments.1)
                    ++ (x.ephemeral_key
                        ++ (x.random_seed
                            ++ ((x.vmacs.0 ++ x.vmacs.1)
                                ++ (proof_bytes version (x.proof_phgr13, x.proof_groth16)
                                    ++ ((x.enc_ciphertexts.0 ++ x.enc_ciphertexts.1))))))))))

abbrev JoinSplitFields : ℕ → JoinSplit → Type 0
JoinSplitFields version x =
    (x.version ≡ version)
    × ((x.vpub_old < 2 ^ 64)
        × ((x.vpub_new < 2 ^ 64)
            × ((length x.anchor ≡ 32)
                × ((AreSized 32 x.nullifiers)
                    × ((AreSized 32 x.commitments)
                        × ((length x.ephemeral_key ≡ 32)
                            × ((length x.random_seed ≡ 32)
                                × ((AreSized 32 x.vmacs)
                                    × ((IsSizedProof version (x.proof_phgr13, x.proof_groth16))
                                        × ((AreSized 601 x.enc_ciphertexts) × (Unit {0})))))))))))

pub join_split-Codec :
    (version : ℕ)
    → Codec (parse_join_split version) (IsSizedJoinSplit version) (join_split_bytes version)
unfolding parse_join_split
join_split-Codec version =
    Codec-iff
      (>>=-Codec (λ x. x.vpub_old) (λ x. x.version ≡ version) (wrapping-Codec _ read_uint64-Codec)
        λ a.
          >>=-Codec (λ x. x.vpub_new) _ (wrapping-Codec _ read_uint64-Codec)
            λ b.
              >>=-Codec (λ x. x.anchor) _ (wrapping-Codec _ (read_bytes-Codec 32))
                λ c.
                  >>=-Codec (λ x. x.nullifiers) _ (read_pair-Codec _ 32)
                    λ d.
                      >>=-Codec (λ x. x.commitments) _ (read_pair-Codec _ 32)
                        λ e.
                          >>=-Codec (λ x. x.ephemeral_key) _
                            (wrapping-Codec _ (read_bytes-Codec 32))
                            λ f.
                              >>=-Codec (λ x. x.random_seed) _
                                (wrapping-Codec _ (read_bytes-Codec 32))
                                λ g.
                                  >>=-Codec (λ x. x.vmacs) _ (read_pair-Codec _ 32)
                                    λ h.
                                      >>=-Codec (λ x. (x.proof_phgr13, x.proof_groth16)) _
                                        (read_proof-Codec version)
                                        λ i.
                                          >>=-Codec (λ x. x.enc_ciphertexts) _
                                            (read_pair-Codec _ 601)
                                            λ j.
                                              pure-Codec _ (λ _. Unit {0}) _ (ground arith)
                                                (λ x k _. ground arith))
      (λ x w. (from w, simp append-nil)) (λ x v. (to v, simp append-nil))
  where
    from : {x : JoinSplit} → IsSizedJoinSplit version x → JoinSplitFields version x
    from w = assumption

    to : {x : JoinSplit} → JoinSplitFields version x → IsSizedJoinSplit version x
    to v = assumption
