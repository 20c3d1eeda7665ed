-- ===== src/Address/Versions.antt =====
-- The version bytes of addresses, as their networks have them: the main one, the test one and the
-- regression test one.
use mathlib.Core.Option.{some-injective, none-ne-some}
use lightwalletd.Common.{
  ℕ, List, [], ◌∷◌, ◌≡◌, refl, sym, ap, ◌∙◌, true, ◌&&◌, ◌⊎◌, inl, inr, Bool-cases, some, ◌==◌,
  ==_iff, and_true,
}
use lightwalletd.Address.Defs.{
  version_in, yed_version_map, yed_pq_versions, plain_pq_versions, has_version,
}

-- One of three entries.
abbrev pub IsOneOf :
    (ℕ × ℕ) × (ℕ × ℕ) → (ℕ × ℕ) × (ℕ × ℕ) → (ℕ × ℕ) × (ℕ × ℕ) → ℕ × ℕ → ℕ × ℕ → Type 0
IsOneOf x y z from to =
    ((from ≡ x.0) × (to ≡ x.1)) ⊎ (((from ≡ y.0) × (to ≡ y.1)) ⊎ ((from ≡ z.0) × (to ≡ z.1)))

-- `yb` to `s1`, and `yt` and `yr` to `sm`.
abbrev pub IsTransparentVersion : ℕ × ℕ → ℕ × ℕ → Type 0
IsTransparentVersion =
    IsOneOf ((0x1F, 0xDD), (0x1C, 0x28)) ((0x20, 0x07), (0x1C, 0x95)) ((0x20, 0x02), (0x1C, 0x95))

-- `yb` to `sq`, `yt` to `tq`, and `yr` to `rq`.
abbrev pub IsPlainVersion : ℕ × ℕ → ℕ × ℕ → Type 0
IsPlainVersion =
    IsOneOf ((0x56, 0xAB), (0x4D, 0xD9)) ((0x57, 0x1E), (0x4F, 0x61)) ((0x57, 0x10), (0x4C, 0x51))

first_or_later :
    (k w : ℕ × ℕ) (versions : List ((ℕ × ℕ) × (ℕ × ℕ))) (a b : ℕ) (v : ℕ × ℕ)
    → version_in ((k, w) ∷ versions) a b ≡ some v
    → (((a, b) ≡ k) × (v ≡ w)) ⊎ (version_in versions a b ≡ some v)
first_or_later k w versions a b v h = elim (Bool-cases (k.0 == a && k.1 == b)) [
  | inl here ↦
      let (x, y) = and_true _ _ here in
      let e = (==_iff k.0 a).0 x in
      let f = (==_iff k.1 b).0 y in
      inl ((λ i. (sym e i, sym f i)), sym (some-injective w v (rw here at h)))
  | inr later ↦ inr (rw later at h)
]

version_in-IsOneOf :
    (x y z : (ℕ × ℕ) × (ℕ × ℕ)) (a b : ℕ) (v : ℕ × ℕ)
    → version_in (x ∷ y ∷ z ∷ []) a b ≡ some v
    → IsOneOf x y z (a, b) v
version_in-IsOneOf x y z a b v h = elim (first_or_later x.0 x.1 (y ∷ z ∷ []) a b v h) [
  | inl one ↦ inl one
  | inr h ↦ elim (first_or_later y.0 y.1 (z ∷ []) a b v h) [
    | inl two ↦ inr (inl two)
    | inr h ↦ elim (first_or_later z.0 z.1 [] a b v h) [
      | inl three ↦ inr (inr three)
      | inr h ↦ absurd (none-ne-some v h)
    ]
  ]
]

pub version_in-IsTransparentVersion :
    (a b : ℕ) (v : ℕ × ℕ) → version_in yed_version_map a b ≡ some v → IsTransparentVersion (a, b) v
version_in-IsTransparentVersion a b v h = version_in-IsOneOf _ _ _ a b v h

pub version_in-IsPlainVersion :
    (a b : ℕ) (v : ℕ × ℕ) → version_in yed_pq_versions a b ≡ some v → IsPlainVersion (a, b) v
version_in-IsPlainVersion a b v h = version_in-IsOneOf _ _ _ a b v h

-- What the map has for version bytes that are known.
at_version :
    (versions : List ((ℕ × ℕ) × (ℕ × ℕ))) (from to k w : ℕ × ℕ)
    → version_in versions k.0 k.1 ≡ some w
    → (from ≡ k) × (to ≡ w)
    → version_in versions from.0 from.1 ≡ some to
at_version versions from to k w h (e, f) =
    ap (λ x. version_in versions x.0 x.1) e ∙ h ∙ ap some (sym f)

pub transparent_version :
    (from to : ℕ × ℕ)
    → IsTransparentVersion from to
    → version_in yed_version_map from.0 from.1 ≡ some to
transparent_version from to (inl k) = at_version yed_version_map from to _ _ refl k
transparent_version from to (inr (inl k)) = at_version yed_version_map from to _ _ refl k
transparent_version from to (inr (inr k)) = at_version yed_version_map from to _ _ refl k

pub plain_version :
    (from to : ℕ × ℕ) → IsPlainVersion from to → version_in yed_pq_versions from.0 from.1 ≡ some to
plain_version from to (inl k) = at_version yed_pq_versions from to _ _ refl k
plain_version from to (inr (inl k)) = at_version yed_pq_versions from to _ _ refl k
plain_version from to (inr (inr k)) = at_version yed_pq_versions from to _ _ refl k

-- The plain versions are those of plain addresses.
pub has_version-plain :
    (from to : ℕ × ℕ) → IsPlainVersion from to → has_version plain_pq_versions to.0 to.1 ≡ true
has_version-plain from to (inl k) = ap (λ v. has_version plain_pq_versions v.0 v.1) k.1
has_version-plain from to (inr (inl k)) = ap (λ v. has_version plain_pq_versions v.0 v.1) k.1
has_version-plain from to (inr (inr k)) = ap (λ v. has_version plain_pq_versions v.0 v.1) k.1
