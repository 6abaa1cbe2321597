-- ===== src/Rlp/Length.antt =====
-- The length field of a long string or list: as many bytes as the length needs, which read back.
use nomad_mpt.Prelude.{
  ℕ, zero, suc, ◌+◌, ◌*◌, ◌/◌, ◌%◌, ◌^◌, ◌≤◌, ◌<◌, ◌≡◌, refl, sym, ap, subst, ◌∙◌, arith, ltb,
  ltb→lt, lt→ltb, ◌==◌, not, if◌then◌else◌, Bool-cases, inl, inr, List, [], ◌∷◌, ◌++◌, length, take,
  drop, take_all, All, All-append, length-append,
}
use nomad_mpt.Result.{ok}
use nomad_mpt.Rlp.{Span, countl_zero, big_endian, length_length, encode_length}
use nomad_mpt.Rlp.Decode.{from_digits}
use nomad_mpt.Rlp.Spans.{store_lem, subspan_lem, length-stored}
use native.Mathlib.Nat.{
  suc-add, add-zero, add-suc, mul-one, mul_assoc, pow-suc, pow-le-pow_right, lt_of_le_of_lt,
  mul-le-mul_left, lt_of_mul-lt-mul_right,
}
use mathlib.Core.Path.{ap₂}

-- `256 ^ k`
unfoldable pub word : ℕ → ℕ
word zero = 1
word (suc k) = 256 * word k

pub length-big_endian : (k n : ℕ) → length (big_endian k n) ≡ k
unfolding big_endian
length-big_endian zero n = refl
length-big_endian (suc k) n =
    omega
      (arith, length-append (big_endian k (n / 256)) (n % 256 ∷ []), length-big_endian k (n / 256))

pub big_endian-IsByte : (k n : ℕ) → All (λ b. b < 256) (big_endian k n)
unfolding big_endian
big_endian-IsByte zero n = tt
big_endian-IsByte (suc k) n =
    All-append (λ b. b < 256) (big_endian k (n / 256)) (n % 256 ∷ [])
      (big_endian-IsByte k (n / 256)) (omega arith, tt)

from_digits-append :
    (n b : ℕ) (xs : List ℕ) → from_digits n (xs ++ (b ∷ [])) ≡ from_digits n xs * 256 + b
unfolding from_digits
from_digits-append n b [] = refl
from_digits-append n b (x ∷ xs) = from_digits-append (n * 256 + x) b xs

-- A number that fits is read back.
pub from_digits-big_endian : (k n : ℕ) → n < word k → from_digits 0 (big_endian k n) ≡ n
unfolding big_endian word
from_digits-big_endian zero n h = unfold from_digits in omega arith
from_digits-big_endian (suc k) n h =
    from_digits-append 0 (n % 256) (big_endian k (n / 256))
    ∙ rw (from_digits-big_endian k (n / 256) (omega arith)) (omega arith)

take-more {ℓ} :
    {A : Type ℓ} (xs ys : List A) (k : ℕ) → k ≤ length xs → take k (xs ++ ys) ≡ take k xs
take-more xs ys zero h = refl
take-more [] ys (suc k) h = absurd (omega arith)
take-more (x ∷ xs) ys (suc k) h = ap (◌∷◌ x) (take-more xs ys k (omega arith))

-- Shifted by whole bytes, the number has its bytes in front.
pub take-big_endian : (k j n : ℕ) → take k (big_endian (k + j) (n * word j)) ≡ big_endian k n
unfolding word big_endian
take-big_endian k zero n =
    rw (add-zero, mul-one) (take_all k (big_endian k n) (omega (arith, length-big_endian k n)))
take-big_endian k (suc j) n =
    let scaled : n * (256 * word j) ≡ n * word j * 256 = grind arith in
    let quotient : n * (256 * word j) / 256 ≡ n * word j = omega (arith, scaled) in
    let more : k ≤ length (big_endian (k + j) (n * word j)) =
      omega (arith, length-big_endian (k + j) (n * word j)) in
    rw (add-suc, big_endian, quotient)
      (take-more (big_endian (k + j) (n * word j)) _ k more ∙ take-big_endian k j n)

pub countl_zero-le : (w n : ℕ) → countl_zero w n ≤ w
unfolding countl_zero
countl_zero-le zero n = omega arith
countl_zero-le (suc w) n = ground (arith, countl_zero-le w n)

-- Shifted by its leading zeros, the number still fits.
countl_zero-fits : (w n : ℕ) → n < 2 ^ w → n * 2 ^ countl_zero w n < 2 ^ w
unfolding countl_zero
countl_zero-fits zero n h = omega arith
countl_zero-fits (suc w) n h = elim (Bool-cases (ltb n (2 ^ w))) [
  | inl e ↦
      let c = 2 ^ countl_zero w n in
      let twice : n * (c * 2) ≡ n * c * 2 = sym (mul_assoc n c 2) in
      rw (countl_zero, e, pow-suc, twice) (omega (arith, countl_zero-fits w n (ltb→lt _ _ e)))
  | inr e ↦ rw (countl_zero, e, mul-one) h
]

2^-word : (j : ℕ) → 2 ^ (j * 8) ≡ word j
unfolding word
2^-word zero = refl
2^-word (suc j) =
    let more : suc j * 8 ≡ suc (suc (suc (suc (suc (suc (suc (suc (j * 8)))))))) = omega arith in
    rw more (simp (pow-suc, 2^-word j) (omega arith))

word-add : (k j : ℕ) → word (k + j) ≡ word k * word j
unfolding word
word-add k zero = rw (add-zero, mul-one)
word-add k (suc j) = rw (add-suc, word-add k j) (grind arith)

lz_bytes_fits : (n : ℕ) → n < 2 ^ 64 → n * word (countl_zero 64 n / 8) < 2 ^ 64
lz_bytes_fits n h =
    let c = countl_zero 64 n in
    let below : 2 ^ (c / 8 * 8) ≤ 2 ^ c = pow-le-pow_right (omega arith) (omega arith) in
    rw (← 2^-word (c / 8)) (lt_of_le_of_lt (mul-le-mul_left n below) (countl_zero-fits 64 n h))

length_length_eq : (n : ℕ) → length_length n + countl_zero 64 n / 8 ≡ 8
unfolding length_length
length_length_eq n = omega (arith, countl_zero-le 64 n)

pub length_length-le : (n : ℕ) → length_length n ≤ 8
unfolding length_length
length_length-le n = omega arith

-- The length fits into its bytes.
pub length_length_fits : (n : ℕ) → n < 2 ^ 64 → n < word (length_length n)
unfolding word
length_length_fits n h =
    let lz = countl_zero 64 n / 8 in
    let whole : 2 ^ 64 ≡ word (length_length n) * word lz =
      sym (2^-word 8) ∙ sym (ap word (length_length_eq n)) ∙ word-add (length_length n) lz in
    lt_of_mul-lt-mul_right (word lz) (subst (λ (m : ℕ). n * word lz < m) whole (lz_bytes_fits n h))

word_pos : (k n : ℕ) → n < word k → 0 < n → 1 ≤ k
unfolding word
word_pos zero n h pos = absurd (omega arith)
word_pos (suc k) n h pos = omega arith

pub length_length_pos : (n : ℕ) → n < 2 ^ 64 → 0 < n → 1 ≤ length_length n
length_length_pos n h pos = word_pos (length_length n) n (length_length_fits n h) pos

shifted :
    (n : ℕ)
    → n < 2 ^ 64
    → (if not (n == 0) then n * 2 ^ (countl_zero 64 n / 8 * 8) % 2 ^ 64 else n)
      ≡ n * word (countl_zero 64 n / 8)
shifted n h =
    let lz = countl_zero 64 n / 8 in let fits = lz_bytes_fits n h in rw (2^-word lz) (ground arith)

-- `encode_length` passes the bytes of the length; of the eight that it stores the others stay in the
-- span.
pub encode_length_lem :
    (d : Span) (n : ℕ)
    → n < 2 ^ 64
    → 8 ≤ length d.left
    → (stored : List ℕ) × (length stored ≡ 8)
      × (encode_length d n
          ≡ ok (record {
            passed = d.passed ++ big_endian (length_length n) n;
            left = drop (length_length n) (stored ++ drop 8 d.left);
          }))
unfolding encode_length length_length
encode_length_lem d n h room =
    let lz = countl_zero 64 n / 8 in
    let k = length_length n in
    let stored = big_endian 8 (n * word lz) in
    let eight : length stored ≡ 8 = length-big_endian 8 (n * word lz) in
    let fits : length stored ≤ length d.left = omega (arith, eight) in
    let all = length-stored stored d.left fits in
    let enough : k ≤ length (stored ++ drop (length stored) d.left) =
      omega (arith, all, length_length-le n) in
    let front : take k (stored ++ drop (length stored) d.left) ≡ big_endian k n =
      take-more stored _ k (omega (arith, eight, length_length-le n))
      ∙ subst (λ (m : ℕ). take k (big_endian m (n * word lz)) ≡ big_endian k n) (length_length_eq n)
          (take-big_endian k lz n) in
    (
      stored,
      eight,
      rw (shifted n h, store_lem stored d fits)
          (subspan_lem k
              (record { passed = d.passed; left = stored ++ drop (length stored) d.left }) enough
            ∙ ap₂
                (λ (p : List ℕ) (m : ℕ).
                  ok (record { passed = d.passed ++ p; left = drop k (stored ++ drop m d.left) }))
                front eight),
    )

countl_zero-ge : (k w n : ℕ) → n < 2 ^ w → k ≤ countl_zero (k + w) n
unfolding countl_zero
countl_zero-ge zero w n h = omega arith
countl_zero-ge (suc k) w n h =
    let more : 2 ^ w ≤ 2 ^ (k + w) = pow-le-pow_right (omega arith) (omega arith) in
    rw (suc-add, lt→ltb n (2 ^ (k + w)) (omega (arith, more)))
      (omega (arith, countl_zero-ge k w n h))

pub length_length-small : (n : ℕ) → n < 2 ^ 16 → length_length n ≤ 2
unfolding length_length
length_length-small n h = omega (arith, countl_zero-ge 48 16 n h)
