-- ===== src/Offset/Pages.antt =====
-- A number of disk pages in fifteen bits: rounded up, by at most one part in 512.
use nomad_mpt.Prelude.{
  ℕ, zero, suc, ◌+◌, ◌-◌, ◌*◌, ◌/◌, ◌%◌, ◌^◌, ◌≤◌, ◌<◌, ◌≡◌, ◌⊎◌, refl, ap, ◌∙◌, arith, ◌==◌, ltb,
  ltb→lt, if◌then◌else◌, not, Bool-cases, inl, inr,
}
use nomad_mpt.Result.{ok}
use nomad_mpt.Rlp.{countl_zero}
use nomad_mpt.Rlp.Spans.{le→leb}
use nomad_mpt.Offset.{PagesSpare, to_pages, pages_fields, disk_pages}
use native.Mathlib.Nat.{
  one-le-pow, div-add-mod, mod-lt, pow-suc, pow-le-pow_right, sub-zero, lt_of_mul-lt-mul_left,
  mul_comm,
}

-- The bits of a number that are not leading zeros.
abbrev width : ℕ → ℕ → ℕ
width w n = w - countl_zero w n

width_fits : (w n : ℕ) → n < 2 ^ w → n < 2 ^ width w n
unfolding countl_zero
width_fits zero n h = h
width_fits (suc w) n h = elim (Bool-cases (ltb n (2 ^ w))) [
  | inl e ↦
      let less : suc w - suc (countl_zero w n) ≡ w - countl_zero w n = omega arith in
      rw (e, less) (width_fits w n (ltb→lt _ _ e))
  | inr e ↦ rw (e, sub-zero) h
]

width_least : (w n : ℕ) → n < 2 ^ w → 0 < n → 2 ^ width w n ≤ 2 * n
unfolding countl_zero
width_least zero n h pos = absurd (omega arith)
width_least (suc w) n h pos = elim (Bool-cases (ltb n (2 ^ w))) [
  | inl e ↦
      let less : suc w - suc (countl_zero w n) ≡ w - countl_zero w n = omega arith in
      rw (e, less) (width_least w n (ltb→lt _ _ e) pos)
  | inr e ↦ let le : 2 ^ w ≤ n = ground (arith, e) in rw (e, sub-zero, pow-suc) (omega (arith, le))
]

-- Pages divided by `m` and rounded up.
abbrev rounded : ℕ → ℕ → ℕ
rounded pages m = pages / m + (if not (pages % m == 0) then 1 else 0)

rounded_lem :
    (pages m : ℕ)
    → 0 < m
    → pages < 1024 * m
    → (rounded pages m ≤ 1024) × (pages ≤ rounded pages m * m) × (rounded pages m * m < pages + m)
rounded_lem pages m pos small =
    let split : m * (pages / m) + pages % m ≡ pages = div-add-mod pages m in
    let rest = mod-lt pages pos in
    let few : pages / m < 1024 = lt_of_mul-lt-mul_left m (omega (arith, split, mul_comm m 1024)) in
    elim (Bool-cases (pages % m == 0)) [
      | inl e ↦
          let exact : pages % m ≡ 0 = ground arith in
          let product : (pages / m + 0) * m ≡ m * (pages / m) = grind arith in
          rw e (
            omega (arith, few),
            omega (arith, split, product, exact),
            omega (arith, split, product, exact),
          )
      | inr e ↦
          let over : 0 < pages % m = ground arith in
          let product : (pages / m + 1) * m ≡ m * (pages / m) + m = grind arith in
          rw e (
            omega (arith, few),
            omega (arith, split, product, rest),
            omega (arith, split, product, over),
          )
    ]

-- The shift of a number of pages.
abbrev shift_of : ℕ → ℕ
shift_of pages = width 32 (pages / 2 ^ 10)

abbrev max_pages : ℕ
max_pages = 1023 * 2 ^ 22

shift_small : (pages : ℕ) → pages ≤ max_pages → shift_of pages ≤ 22
shift_small pages h = elim (Bool-cases (ltb 22 (shift_of pages))) [
  | inr e ↦ ground (arith, e)
  | inl e ↦
      let large : 2 ^ 23 ≤ 2 ^ shift_of pages = pow-le-pow_right (omega arith) (ltb→lt _ _ e) in
      let fits = width_fits 32 (pages / 2 ^ 10) (omega arith) in
      elim (Bool-cases (pages / 2 ^ 10 == 0)) [
        | inl z ↦
            let zero_pages : pages / 2 ^ 10 ≡ 0 = ground arith in
            absurd (no_bits (ltb→lt _ _ (rw zero_pages at e)))
        | inr p ↦
            let least = width_least 32 (pages / 2 ^ 10) (omega arith) (ground arith) in
            absurd (omega (arith, large, least))
      ]
]
  where
    no_bits : 22 < width 32 0 → ⊥
    no_bits h' = unfold countl_zero in omega (arith, h')

excess_small :
    (pages : ℕ) → pages ≤ max_pages → (512 * 2 ^ shift_of pages ≤ pages) ⊎ (2 ^ shift_of pages ≡ 1)
excess_small pages h = elim (Bool-cases (pages / 2 ^ 10 == 0)) [
  | inl z ↦
      let zero_pages : pages / 2 ^ 10 ≡ 0 = ground arith in
      inr (rw zero_pages (unfold countl_zero in refl))
  | inr p ↦
      let least = width_least 32 (pages / 2 ^ 10) (omega arith) (ground arith) in
      inl (omega (arith, least))
]

-- The fields give back the rounded number of pages.
fields_lem :
    (pages : ℕ)
    → pages ≤ max_pages
    → let v = pages_fields pages in
      (v.count < 1024)
      × (v.shift < 32)
      × (v.count * 2 ^ v.shift ≡ rounded pages (2 ^ shift_of pages) * 2 ^ shift_of pages)
unfolding pages_fields
fields_lem pages h =
    let m = 2 ^ shift_of pages in
    let few = shift_small pages h in
    let pos : 1 ≤ m = one-le-pow (shift_of pages) 2 (omega arith) in
    let fits = width_fits 32 (pages / 2 ^ 10) (omega arith) in
    let (low, up, below) = rounded_lem pages m pos (omega (arith, fits)) in
    elim (Bool-cases (ltb 1023 (rounded pages m))) [
      | inl e ↦
          let full : rounded pages m ≡ 1024 = omega (arith, ltb→lt _ _ e, low) in
          let next : 2 ^ (shift_of pages + 1) ≡ m * 2 =
            ap (λ (k : ℕ). 2 ^ k) (omega arith) ∙ pow-suc 2 (shift_of pages) in
          rw (e, full) (omega arith, omega (arith, few), rw next (omega arith))
      | inr e ↦ rw e (ground (arith, e), omega (arith, few), refl)
    ]

-- A number of pages up to 1023 * 2 ^ 22 is stored: all assertions pass, and what is read back is not
-- less than it and exceeds it by at most one part in 512.
pub disk_pages_lem :
    (pages : ℕ)
    → pages ≤ 1023 * 2 ^ 22
    → (v : PagesSpare) × (disk_pages pages ≡ ok v)
      × (pages ≤ to_pages v)
      × (512 * (to_pages v - pages) ≤ pages)
unfolding disk_pages to_pages
disk_pages_lem pages h =
    let v = pages_fields pages in
    let m = 2 ^ shift_of pages in
    let (few, shifts, product) = fields_lem pages h in
    let count : v.count % 2 ^ 10 ≡ v.count = omega arith in
    let shift : v.shift % 2 ^ 5 ≡ v.shift = omega arith in
    let pos : 1 ≤ m = one-le-pow (shift_of pages) 2 (omega arith) in
    let fits = width_fits 32 (pages / 2 ^ 10) (omega arith) in
    let (low, up, below) = rounded_lem pages m pos (omega (arith, fits)) in
    let small : m ≤ 2 ^ 22 = pow-le-pow_right (omega arith) (shift_small pages h) in
    let word : rounded pages m * m % 2 ^ 32 ≡ rounded pages m * m = omega (arith, below, small) in
    (
      v,
      rw (
        le→leb v.count 1023 (omega arith),
        le→leb v.shift 31 (omega arith),
        count,
        shift,
        product,
        word,
        le→leb _ _ up,
      ),
      rw (product, word) up,
      rw (product, word)
          (elim (excess_small pages h) [
            | inl part ↦ omega (arith, part, below)
            | inr one ↦ omega (arith, one, below)
          ]),
    )
