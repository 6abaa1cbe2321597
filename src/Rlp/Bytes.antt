-- ===== src/Rlp/Bytes.antt =====
-- What a string and a list are as bytes: the short and the long form, and their lengths.
use nomad_mpt.Prelude.{
  ℕ, suc, ◌+◌, ◌≤◌, ◌<◌, ◌^◌, ◌≡◌, refl, arith, leb, ==→eq, ◌==◌, ◌&&◌, if◌then◌else◌, true, false,
  Bool-cases, inl, inr, List, [], ◌∷◌, ◌++◌, length, get_or, length-append,
}
use nomad_mpt.Rlp.{big_endian, length_length, string_length, list_length}
use nomad_mpt.Rlp.Length.{length-big_endian, length_length-le, length_length-small}

-- A short item: its first byte holds the length.
abbrev pub short : ℕ → List ℕ → List ℕ
short base s = (base + length s) ∷ s

-- A long item: its first byte holds the length of the length.
abbrev pub long : ℕ → List ℕ → List ℕ
long base s =
    (base + length_length (length s)) ∷ (big_endian (length_length (length s)) (length s) ++ s)

-- The bytes of a string.
abbrev pub string_bytes : List ℕ → List ℕ
string_bytes s =
    if length s == 1 && leb (get_or s 0 0) 0x7f
    then s
    else if leb (length s) 55
    then short 0x80 s
    else long 0xb7 s

-- The bytes of a list with this payload.
abbrev pub list_bytes : List ℕ → List ℕ
list_bytes s = if leb (length s) 55 then short 0xc0 s else long 0xf7 s

pub length-string_bytes : (s : List ℕ) → length (string_bytes s) ≡ string_length s
unfolding string_length
length-string_bytes s = elim (Bool-cases (length s == 1 && leb (get_or s 0 0) 0x7f)) [
  | inl e ↦ rw e (==→eq (length s) 1 (ground arith))
  | inr e ↦ rw e (elim (Bool-cases (leb (length s) 55)) [
    | inl f ↦ rw f (omega arith)
    | inr f ↦ rw f (
        omega (
          arith,
          length-append (big_endian (length_length (length s)) (length s)) s,
          length-big_endian (length_length (length s)) (length s),
        ))
  ])
]

pub length-list_bytes : (s : List ℕ) → length (list_bytes s) ≡ list_length (length s)
unfolding list_length
length-list_bytes s = elim (Bool-cases (leb (length s) 55)) [
  | inl f ↦ rw f (omega arith)
  | inr f ↦ rw f (
      omega (
        arith,
        length-append (big_endian (length_length (length s)) (length s)) s,
        length-big_endian (length_length (length s)) (length s),
      ))
]

pub not_leb : (a b : ℕ) → leb a b ≡ false → b < a
not_leb a b h = ground arith

pub leb→le : (a b : ℕ) → leb a b ≡ true → a ≤ b
leb→le a b h = ground arith

pub single :
    (s : List ℕ)
    → (length s == 1 && leb (get_or s 0 0) 0x7f) ≡ true
    → (b : ℕ) × (s ≡ b ∷ []) × (b ≤ 127)
single [] h = cc
single (b ∷ []) h = (b, refl, leb→le _ _ h)
single (b ∷ c ∷ s) h = absurd (two (length s) h)
  where
    two : (n : ℕ) → (suc (suc n) == 1 && leb b 0x7f) ≡ true → ⊥
    two n e = ground arith

pub string_length-le : (s : List ℕ) → string_length s ≤ 9 + length s
unfolding string_length
string_length-le s = elim (Bool-cases (length s == 1 && leb (get_or s 0 0) 0x7f)) [
  | inl e ↦ rw e (omega arith)
  | inr e ↦ rw e (ground (arith, length_length-le (length s)))
]

pub list_length-le : (n : ℕ) → list_length n ≤ 9 + n
unfolding list_length
list_length-le n = ground (arith, length_length-le n)

-- A list of less than 2 ^ 16 bytes has a header of at most three.
pub list_length-small : (n : ℕ) → n < 2 ^ 16 → list_length n ≤ 3 + n
unfolding list_length
list_length-small n h = ground (arith, length_length-small n h)
