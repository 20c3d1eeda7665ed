-- ===== src/BlockCache/Frames.antt =====
-- The contents of the cache's files for a list of blocks, and what stands where in them.
use native.Mathlib.Nat.{add-zero}
use lightwalletd.Common.{
  ℕ, zero, suc, ◌+◌, ◌-◌, ◌*◌, ◌≤◌, List, [], ◌∷◌, ◌++◌, ◌≡◌, refl, sym, ap, ◌∙◌, append_assoc,
  append-nil, some, length, length-append, take, take_front, replicate, get_elem?, arith,
}
use lightwalletd.Bytestring.Words.{le_bytes, length-le_bytes}
use lightwalletd.Block.{CompactBlock}
use lightwalletd.BlockCache.Checksum.{checksum, length-checksum}
use lightwalletd.BlockCache.Defs.{truncate}
use lightwalletd.BlockCache.Operations.{last_of}

-- A block and its marshalled form.
abbrev pub Entry : Type 0
Entry = CompactBlock × List ℕ

abbrev pub frame : ℕ → List ℕ → List ℕ
frame h d = checksum h d ++ d

abbrev pub blocks_bytes : ℕ → List Entry → List ℕ
blocks_bytes h [] = []
blocks_bytes h (e ∷ es) = frame h e.1 ++ blocks_bytes (h + 1) es

abbrev pub lengths_bytes : List Entry → List ℕ
lengths_bytes [] = []
lengths_bytes (e ∷ es) = le_bytes 4 (length e.1) ++ lengths_bytes es

abbrev pub offsets : ℕ → List Entry → List ℕ
offsets o [] = o ∷ []
offsets o (e ∷ es) = o ∷ offsets (o + (length e.1 + 8)) es

abbrev pub size : List Entry → ℕ
size [] = 0
size (e ∷ es) = (length e.1 + 8) + size es

pub length-frame : (h : ℕ) (d : List ℕ) → length (frame h d) ≡ length d + 8
length-frame h d = omega (arith, length-append (checksum h d) d, length-checksum h d)

pub length-blocks_bytes : (h : ℕ) (es : List Entry) → length (blocks_bytes h es) ≡ size es
length-blocks_bytes h [] = refl
length-blocks_bytes h (e ∷ es) = omega (
  arith,
  length-append (frame h e.1) (blocks_bytes (h + 1) es),
  length-frame h e.1,
  length-blocks_bytes (h + 1) es,
)

pub length-lengths_bytes : (es : List Entry) → length (lengths_bytes es) ≡ length es * 4
length-lengths_bytes [] = refl
length-lengths_bytes (e ∷ es) = omega (
  arith,
  length-append (le_bytes 4 (length e.1)) (lengths_bytes es),
  length-le_bytes 4 (length e.1),
  length-lengths_bytes es,
)

pub blocks_bytes-append :
    (h : ℕ) (es fs : List Entry)
    → blocks_bytes h (es ++ fs) ≡ blocks_bytes h es ++ blocks_bytes (h + length es) fs
blocks_bytes-append h [] fs = ap (λ n. blocks_bytes n fs) (sym (add-zero h))
blocks_bytes-append h (e ∷ es) fs =
    ap (λ bs. frame h e.1 ++ bs) (blocks_bytes-append (h + 1) es fs)
    ∙ sym (append_assoc (frame h e.1) (blocks_bytes (h + 1) es) _)
    ∙ ap (λ n. (frame h e.1 ++ blocks_bytes (h + 1) es) ++ blocks_bytes n fs) (omega arith)

pub lengths_bytes-append :
    (es fs : List Entry) → lengths_bytes (es ++ fs) ≡ lengths_bytes es ++ lengths_bytes fs
lengths_bytes-append [] fs = refl
lengths_bytes-append (e ∷ es) fs =
    ap (λ bs. le_bytes 4 (length e.1) ++ bs) (lengths_bytes-append es fs)
    ∙ sym (append_assoc (le_bytes 4 (length e.1)) (lengths_bytes es) (lengths_bytes fs))

pub offsets-append :
    (o : ℕ) (es : List Entry) (e : Entry)
    → offsets o (es ++ e ∷ []) ≡ offsets o es ++ ((o + size es) + (length e.1 + 8)) ∷ []
offsets-append o [] e = ap (λ n. o ∷ n ∷ []) (omega arith)
offsets-append o (f ∷ es) e =
    ap (λ xs. o ∷ xs)
      (offsets-append (o + (length f.1 + 8)) es e
        ∙ ap (λ n. offsets (o + (length f.1 + 8)) es ++ n ∷ []) (omega arith))

last_of_cons : (o x : ℕ) (es : List Entry) → last_of (x ∷ offsets o es) ≡ last_of (offsets o es)
last_of_cons o x [] = refl
last_of_cons o x (e ∷ es) = refl

pub last_of-offsets : (o : ℕ) (es : List Entry) → last_of (offsets o es) ≡ some (o + size es)
last_of-offsets o [] = ap some (omega arith)
last_of-offsets o (e ∷ es) =
    last_of_cons (o + (length e.1 + 8)) o es
    ∙ last_of-offsets (o + (length e.1 + 8)) es
    ∙ ap some (omega arith)

pub get_elem?-offsets :
    (o : ℕ) (es : List Entry) (i : ℕ)
    → i ≤ length es
    → get_elem? (offsets o es) i ≡ some (o + size (take i es))
get_elem?-offsets o [] zero h = ap some (omega arith)
get_elem?-offsets o [] (suc i) h = absurd (omega arith)
get_elem?-offsets o (e ∷ es) zero h = ap some (omega arith)
get_elem?-offsets o (e ∷ es) (suc i) h =
    get_elem?-offsets (o + (length e.1 + 8)) es i (omega arith) ∙ ap some (omega arith)

pub take-offsets :
    (o : ℕ) (es : List Entry) (i : ℕ)
    → i ≤ length es
    → take (suc i) (offsets o es) ≡ offsets o (take i es)
take-offsets o [] zero h = refl
take-offsets o [] (suc i) h = absurd (omega arith)
take-offsets o (e ∷ es) zero h = refl
take-offsets o (e ∷ es) (suc i) h =
    ap (λ xs. o ∷ xs) (take-offsets (o + (length e.1 + 8)) es i (omega arith))

pub truncate_front : (xs ys : List ℕ) → truncate (length xs) (xs ++ ys) ≡ xs
truncate_front xs ys =
    let none_added : length xs - length (xs ++ ys) ≡ 0 = omega (arith, length-append xs ys) in
    ap (λ n. take (length xs) (xs ++ ys) ++ replicate n 0) none_added
    ∙ append-nil _
    ∙ take_front xs ys
