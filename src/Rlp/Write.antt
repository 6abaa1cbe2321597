-- ===== src/Rlp/Write.antt =====
-- What `encode_string` and `encode_list` leave in a span that has room.
use nomad_mpt.Prelude.{
  ℕ, suc, ◌+◌, ◌^◌, ◌≤◌, ◌<◌, ◌≡◌, sym, ap, subst, ◌∙◌, arith, leb, ◌==◌, ◌&&◌, Bool-cases, inl,
  inr, List, [], ◌∷◌, ◌++◌, length, drop, get_or, length-append, length-drop, append_assoc,
}
use nomad_mpt.Result.{ok, ◌>>=◌}
use nomad_mpt.Rlp.{
  Span, assign, store, subspan, byte, big_endian, length_length, encode_length, string_length,
  encode_string, list_length, encode_list,
}
use nomad_mpt.Rlp.Spans.{store-subspan, assign-subspan, behind, behind-behind, drop-over, drop-drop}
use nomad_mpt.Rlp.Length.{length-big_endian, length_length-le, encode_length_lem}
use mathlib.Core.Path.{ap₂}
use nomad_mpt.Rlp.Bytes.{
  short, long, string_bytes, list_bytes, length-string_bytes, length-list_bytes, not_leb, leb→le,
  single,
}

byte_sum : (base n : ℕ) → base + n < 256 → byte (base + byte n) ≡ base + n
byte_sum base n h = omega arith

write_short :
    (d : Span) (base : ℕ) (s : List ℕ)
    → base + length s < 256
    → suc (length s) ≤ length d.left
    → (assign (byte (base + byte (length s))) d >>= subspan 1 >>= store s >>= subspan (length s))
      ≡ ok (behind d (short base s))
write_short d base s fits room =
    let first = behind d ((base + length s) ∷ []) in
    let left : length s ≤ length first.left = omega (arith, length-drop 1 d.left) in
    rw
      (
        byte_sum base (length s) fits,
        assign-subspan (base + length s) d (omega arith),
        store-subspan s first left,
      )
      (ap ok (behind-behind d ((base + length s) ∷ []) s))

write_long :
    (d : Span) (base : ℕ) (s : List ℕ)
    → base < 248
    → length s < 2 ^ 64
    → 8 ≤ length s
    → length (long base s) ≤ length d.left
    → (assign (byte (base + byte (length_length (length s)))) d
        >>= subspan 1
        >>= (λ d'. encode_length d' (length s))
        >>= store s
        >>= subspan (length s))
      ≡ ok (behind d (long base s))
write_long d base s small fits enough room =
    let n = length s in
    let k = length_length n in
    let digits = big_endian k n in
    let first = behind d ((base + k) ∷ []) in
    let k_small = length_length-le n in
    let size : length (digits ++ s) ≡ k + n =
      omega (arith, length-append digits s, length-big_endian k n) in
    let left : k + n ≤ length first.left = omega (arith, length-drop 1 d.left, size) in
    let (stored, eight, encoded) = encode_length_lem first n fits (omega (arith, left)) in
    let second : Span = record {
      passed = first.passed ++ digits;
      left = drop k (stored ++ drop 8 first.left);
    } in
    let over : drop n (drop k (stored ++ drop 8 first.left)) ≡ drop (k + n) first.left =
      drop-drop k n (stored ++ drop 8 first.left)
      ∙ subst (λ (m : ℕ). drop (k + n) (stored ++ drop m first.left) ≡ drop (k + n) first.left)
          eight (drop-over stored first.left (k + n) (omega (arith, eight))) in
    let still : n ≤ length second.left = omega (
      arith,
      length-drop k (stored ++ drop 8 first.left),
      length-append stored (drop 8 first.left),
      length-drop 8 first.left,
      eight,
      left,
    ) in
    rw
      (
        byte_sum base k (omega arith),
        assign-subspan (base + k) d (omega arith),
        encoded,
        store-subspan s second still,
      )
      (ap₂ (λ (p q : List ℕ). ok (record { passed = p; left = q }))
          (append_assoc first.passed digits s) (over ∙ ap (λ (m : ℕ). drop m first.left) (sym size))
        ∙ ap ok (behind-behind d ((base + k) ∷ []) (digits ++ s)))

-- The span that `encode_string` returns.
pub encode_string_run :
    (d : Span) (s : List ℕ)
    → length s < 2 ^ 64
    → string_length s ≤ length d.left
    → encode_string d s ≡ ok (behind d (string_bytes s))
unfolding encode_string
encode_string_run d s fits room =
    let size = length-string_bytes s in
    elim (Bool-cases (length s == 1 && leb (get_or s 0 0) 0x7f)) [
      | inl e ↦
          let (b, one, small) = single s e in
          let len = rw e at size in
          rw (e, one) (assign-subspan b d (omega (arith, len, ap length one)))
      | inr e ↦
          let len = rw e at size in
          rw e (elim (Bool-cases (leb (length s) 55)) [
            | inl f ↦
                let len' = rw f at len in
                rw f (write_short d 0x80 s (omega (arith, leb→le _ _ f)) (omega (arith, len')))
            | inr f ↦
                let len' = rw f at len in
                rw f (
                  write_long d 0xb7 s (omega arith) fits (omega (arith, not_leb _ _ f))
                    (omega (arith, len')))
          ])
    ]

pub encode_list_run :
    (d : Span) (s : List ℕ)
    → length s < 2 ^ 64
    → list_length (length s) ≤ length d.left
    → encode_list d s ≡ ok (behind d (list_bytes s))
unfolding encode_list
encode_list_run d s fits room =
    let size = length-list_bytes s in
    elim (Bool-cases (leb (length s) 55)) [
      | inl f ↦
          let len' = rw f at size in
          rw f (write_short d 0xc0 s (omega (arith, leb→le _ _ f)) (omega (arith, len')))
      | inr f ↦
          let len' = rw f at size in
          rw f (
            write_long d 0xf7 s (omega arith) fits (omega (arith, not_leb _ _ f))
              (omega (arith, len')))
    ]
