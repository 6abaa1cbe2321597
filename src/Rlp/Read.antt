-- ===== src/Rlp/Read.antt =====
-- The reader takes strings and lists back.
use nomad_mpt.Prelude.{
  ℕ, ◌+◌, ◌-◌, ◌^◌, ◌≤◌, ◌<◌, ◌≡◌, subst, ◌∙◌, arith, leb, ◌==◌, ◌&&◌, false, Bool-cases, inl, inr,
  some, List, [], ◌∷◌, ◌++◌, length, take, drop, get_or, length-append, append_assoc,
}
use nomad_mpt.Rlp.{big_endian, length_length}
use nomad_mpt.Rlp.Decode.{Item, string, list, payload_of, long_payload_of, decode}
use nomad_mpt.Rlp.Spans.{take-append, drop-append, le→leb}
use nomad_mpt.Rlp.Length.{
  length-big_endian, from_digits-big_endian, length_length-le, length_length_fits,
  length_length_pos,
}
use nomad_mpt.Rlp.Bytes.{string_bytes, list_bytes, not_leb, leb→le, single}

module _ (make : List ℕ → Item) (s rest : List ℕ) where
  payload_of_lem : payload_of make (length s) (s ++ rest) ≡ some (make s, rest)
  unfolding payload_of
  payload_of_lem =
      let room : length s ≤ length (s ++ rest) = omega (arith, length-append s rest) in
      rw (le→leb _ _ room, take-append, drop-append)

  long_payload_of_lem :
      length s < 2 ^ 64
      → long_payload_of make
          (length_length (length s))
          ((big_endian (length_length (length s)) (length s) ++ s) ++ rest)
        ≡ some (make s, rest)
  unfolding long_payload_of
  long_payload_of_lem fits =
      let k = length_length (length s) in
      let digits = big_endian k (length s) in
      let size : length digits ≡ k = length-big_endian k (length s) in
      let room : k ≤ length (digits ++ (s ++ rest)) =
        omega (arith, length-append digits (s ++ rest), size) in
      let front : take k (digits ++ (s ++ rest)) ≡ digits =
        subst (λ (m : ℕ). take m (digits ++ (s ++ rest)) ≡ digits) size
          (take-append digits (s ++ rest)) in
      let after : drop k (digits ++ (s ++ rest)) ≡ s ++ rest =
        subst (λ (m : ℕ). drop m (digits ++ (s ++ rest)) ≡ s ++ rest) size
          (drop-append digits (s ++ rest)) in
      rw
        (
          append_assoc,
          le→leb _ _ room,
          front,
          after,
          from_digits-big_endian k (length s) (length_length_fits (length s) fits),
        )
        payload_of_lem

decode_byte : (b : ℕ) (r : List ℕ) → b ≤ 127 → decode (b ∷ r) ≡ some (string (b ∷ []), r)
unfolding decode
decode_byte b r h = rw (le→leb _ _ h)

decode_string : (n : ℕ) (r : List ℕ) → n ≤ 55 → decode ((128 + n) ∷ r) ≡ payload_of string n r
unfolding decode
decode_string n r h =
    let a : leb (128 + n) 127 ≡ false = ground arith in
    let size : 128 + n - 128 ≡ n = omega arith in rw (a, le→leb (128 + n) 183 (omega arith), size)

decode_long_string :
    (k : ℕ) (r : List ℕ) → 1 ≤ k → k ≤ 8 → decode ((183 + k) ∷ r) ≡ long_payload_of string k r
unfolding decode
decode_long_string k r h h' =
    let a : leb (183 + k) 127 ≡ false = ground arith in
    let b : leb (183 + k) 183 ≡ false = ground arith in
    let size : 183 + k - 183 ≡ k = omega arith in
    rw (a, b, le→leb (183 + k) 191 (omega arith), size)

decode_list : (n : ℕ) (r : List ℕ) → n ≤ 55 → decode ((192 + n) ∷ r) ≡ payload_of list n r
unfolding decode
decode_list n r h =
    let a : leb (192 + n) 127 ≡ false = ground arith in
    let b : leb (192 + n) 183 ≡ false = ground arith in
    let c : leb (192 + n) 191 ≡ false = ground arith in
    let size : 192 + n - 192 ≡ n = omega arith in
    rw (a, b, c, le→leb (192 + n) 247 (omega arith), size)

decode_long_list : (k : ℕ) (r : List ℕ) → 1 ≤ k → decode ((247 + k) ∷ r) ≡ long_payload_of list k r
unfolding decode
decode_long_list k r h =
    let a : leb (247 + k) 127 ≡ false = ground arith in
    let b : leb (247 + k) 183 ≡ false = ground arith in
    let c : leb (247 + k) 191 ≡ false = ground arith in
    let d : leb (247 + k) 247 ≡ false = ground arith in
    let size : 247 + k - 247 ≡ k = omega arith in rw (a, b, c, d, size)

-- The reader takes a string back and leaves what follows.
pub decode-string_bytes :
    (s rest : List ℕ) → length s < 2 ^ 64 → decode (string_bytes s ++ rest) ≡ some (string s, rest)
decode-string_bytes s rest fits = elim (Bool-cases (length s == 1 && leb (get_or s 0 0) 0x7f)) [
  | inl e ↦ rw e (let (b, one, small) = single s e in rw one (decode_byte b rest small))
  | inr e ↦ rw e (elim (Bool-cases (leb (length s) 55)) [
    | inl f ↦
        rw f (decode_string (length s) (s ++ rest) (leb→le _ _ f) ∙ payload_of_lem string s rest)
    | inr f ↦ rw f (
        decode_long_string (length_length (length s)) _
          (length_length_pos (length s) fits (omega (arith, not_leb _ _ f)))
          (length_length-le (length s))
        ∙ long_payload_of_lem string s rest fits)
  ])
]

pub decode-list_bytes :
    (s rest : List ℕ) → length s < 2 ^ 64 → decode (list_bytes s ++ rest) ≡ some (list s, rest)
decode-list_bytes s rest fits = elim (Bool-cases (leb (length s) 55)) [
  | inl f ↦ rw f (decode_list (length s) (s ++ rest) (leb→le _ _ f) ∙ payload_of_lem list s rest)
  | inr f ↦ rw f (
      decode_long_list (length_length (length s)) _
        (length_length_pos (length s) fits (omega (arith, not_leb _ _ f)))
      ∙ long_payload_of_lem list s rest fits)
]
