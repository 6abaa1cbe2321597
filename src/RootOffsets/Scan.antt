-- ===== src/RootOffsets/Scan.antt =====
-- The lower bound moves over invalid entries only, so the versions that the ring holds stay.
use nomad_mpt.Prelude.{
  ℕ, zero, suc, ◌+◌, ◌-◌, ◌^◌, ◌≤◌, ◌<◌, ◌≡◌, refl, sym, ap, ◌∙◌, arith, ◌==◌, leb, ltb,
  if◌then◌else◌, not, true, false, Bool-cases, inl, inr, ◌⊎◌, none, ltb→lt, lt→ltb, ==→eq,
}
use nomad_mpt.RootOffsets.{
  ChunkOffset, is_invalid, invalid_block_num, RootOffsets, root_at, max_version, scan, with_lower,
  update_version_lower_bound,
}
use nomad_mpt.RootOffsets.Window.{valid, roots, IsRing, root_at_lap}

pub max_version-suc :
    (r : RootOffsets)
    → 0 < r.next_version
    → r.next_version < 2 ^ 64
    → max_version r ≡ r.next_version - 1
unfolding max_version
max_version-suc r pos fits = omega arith

-- Where the loop stops.
pub scan_lem :
    (rounds : ℕ) (r : RootOffsets) (idx : ℕ)
    → (idx ≤ scan rounds r idx)
      × ((bound : ℕ) → idx ≤ bound → max_version r ≤ bound → scan rounds r idx ≤ bound)
      × ((v : ℕ) → idx ≤ v → v < scan rounds r idx → is_invalid (root_at r v) ≡ true)
unfolding scan
scan_lem zero r idx = (omega arith, λ bound le h. le, λ v le h. absurd (omega arith))
scan_lem (suc rounds) r idx =
    let (from, bounded, skipped) = scan_lem rounds r (suc idx) in
    elim (Bool-cases (ltb idx (max_version r))) [
      | inr e ↦ rw e (omega arith, λ bound le h. le, λ v le h. absurd (omega arith))
      | inl e ↦ elim (Bool-cases (is_invalid (root_at r idx))) [
        | inr f ↦ rw (e, f) (omega arith, λ bound le h. le, λ v le h. absurd (omega arith))
        | inl f ↦
            let less : idx < max_version r = ltb→lt _ _ e in
            rw (e, f)
              (
                omega (arith, from),
                λ bound le h. bounded bound (omega (arith, less, h)) h,
                λ v le h. elim (Bool-cases (idx == v)) [
                  | inl g ↦ ap (λ (k : ℕ). is_invalid (root_at r k)) (sym (==→eq _ _ g)) ∙ f
                  | inr g ↦ skipped v (ground (arith, le, g)) h
                ],
              )
      ]
    ]

pub valid-none : (o : ChunkOffset) → is_invalid o ≡ true → valid o ≡ none
valid-none o e = rw e refl

-- The window without some invalid entries at its start.
pub raise_lem :
    (bits : ℕ) (r : RootOffsets) (idx : ℕ)
    → IsRing bits r
    → r.version_lower_bound ≤ idx
    → idx ≤ r.next_version
    → ((v : ℕ) → r.version_lower_bound ≤ v → v < idx → is_invalid (root_at r v) ≡ true)
    → IsRing bits (with_lower r idx) × ((v : ℕ) → roots (with_lower r idx) v ≡ roots r v)
unfolding roots
raise_lem bits r idx h from upto skipped =
    let again : (v : ℕ) → root_at (with_lower r idx) v ≡ root_at r v =
      λ v. unfold root_at in refl in
    (
      record {
        size = h.size;
        fits = h.fits;
        ordered = upto;
        holds = omega (arith, h.holds, from);
        outside = λ v le less. elim (Bool-cases (ltb v (r.version_lower_bound + 2 ^ bits))) [
          | inl e ↦ ap is_invalid (again v) ∙ h.outside v le (ltb→lt _ _ e)
          | inr e ↦
              let back : v - 2 ^ bits + 2 ^ bits ≡ v = ground (arith, e) in
              ap is_invalid
                (again v ∙ ap (root_at r) (sym back) ∙ root_at_lap bits r h.size (v - 2 ^ bits))
              ∙ skipped (v - 2 ^ bits) (ground (arith, e)) (omega (arith, back, less))
        ];
      },
      λ v. elim (Bool-cases (leb idx v)) [
        | inl e ↦
            let low : leb r.version_lower_bound v ≡ true = ground (arith, e, from) in
            rw (e, low, again v) refl
        | inr e ↦ elim (Bool-cases (leb r.version_lower_bound v)) [
          | inr f ↦ rw (e, f) refl
          | inl f ↦
              let gone : valid (root_at r v) ≡ none =
                valid-none (root_at r v) (skipped v (ground (arith, f)) (ground (arith, e))) in
              elim (Bool-cases (ltb v r.next_version)) [
                | inl g ↦ rw (e, f, g, gone) refl
                | inr g ↦ rw (e, f, g) refl
              ]
        ]
      ],
    )

-- The window with the entries before it, which are invalid.
pub lower_lem :
    (bits : ℕ) (r : RootOffsets) (idx : ℕ)
    → IsRing bits r
    → idx ≤ r.version_lower_bound
    → r.next_version ≤ idx + 2 ^ bits
    → IsRing bits (with_lower r idx) × ((v : ℕ) → roots (with_lower r idx) v ≡ roots r v)
unfolding roots
lower_lem bits r idx h upto near =
    let again : (v : ℕ) → root_at (with_lower r idx) v ≡ root_at r v =
      λ v. unfold root_at in refl in
    (
      record {
        size = h.size;
        fits = h.fits;
        ordered = omega (arith, upto, h.ordered);
        holds = near;
        outside = λ v le less. ap is_invalid (again v) ∙ h.outside v le (omega (arith, less, upto));
      },
      λ v. elim (Bool-cases (leb r.version_lower_bound v)) [
        | inl e ↦ let low : leb idx v ≡ true = ground (arith, e, upto) in rw (e, low, again v) refl
        | inr e ↦ elim (Bool-cases (leb idx v)) [
          | inr f ↦ rw (e, f) refl
          | inl f ↦
              let gone : valid (root_at r v) ≡ none = valid-none (root_at r v) (
                ap is_invalid (sym (root_at_lap bits r h.size v))
                ∙ h.outside (v + 2 ^ bits) (ground (arith, f, near)) (ground (arith, e))) in
              elim (Bool-cases (ltb v r.next_version)) [
                | inl g ↦ rw (e, f, again v, gone, g) refl
                | inr g ↦ rw (e, f, g) refl
              ]
        ]
      ],
    )

-- Storing the bound that is there changes nothing.
store_lem :
    (r : RootOffsets) (idx : ℕ)
    → (if not (idx == r.version_lower_bound) then with_lower r idx else r) ≡ with_lower r idx
store_lem r idx = elim (Bool-cases (idx == r.version_lower_bound)) [
  | inr e ↦ rw e refl
  | inl e ↦ rw (e, ==→eq _ _ e) refl
]

-- The lower bound moves from its place, or from an earlier one that the capacity allows, up to the first
-- valid entry.
pub update_version_lower_bound_lem :
    (bits : ℕ) (r : RootOffsets) (lower : ℕ)
    → IsRing bits r
    → 0 < r.next_version
    → (r.version_lower_bound ≤ lower) ⊎ (r.next_version ≤ lower + 2 ^ bits)
    → IsRing bits (update_version_lower_bound r lower)
      × ((v : ℕ) → roots (update_version_lower_bound r lower) v ≡ roots r v)
unfolding update_version_lower_bound
update_version_lower_bound_lem bits r lower h pos place =
    let start = if ltb lower r.version_lower_bound then lower else r.version_lower_bound in
    let (from, bounded, skipped) = scan_lem (max_version r - start) r start in
    let greatest = max_version-suc r pos h.fits in
    let some_version : (max_version r == invalid_block_num) ≡ false =
      rw greatest (ground (arith, pos, h.fits)) in
    let (ring, same) : IsRing bits (with_lower r start)
        × ((v : ℕ) → roots (with_lower r start) v ≡ roots r v) =
      elim (Bool-cases (ltb lower r.version_lower_bound)) [
        | inr e ↦ rw e (h, λ v. refl)
        | inl e ↦ rw e (
            lower_lem bits r lower h (ground (arith, e))
              (elim place [ inl p ↦ absurd (ground (arith, e, p)) | inr p ↦ p ]))
      ] in
    let again : (v : ℕ) → root_at (with_lower r start) v ≡ root_at r v =
      λ v. unfold root_at in refl in
    let (ring', same') =
      raise_lem bits (with_lower r start) (scan (max_version r - start) r start) ring from
        (bounded r.next_version ring.ordered (rw greatest (omega arith)))
        (λ v le less. ap is_invalid (again v) ∙ skipped v le less) in
    rw (some_version, store_lem r (scan (max_version r - start) r start))
      (ring', λ v. same' v ∙ same v)

scan-with_lower :
    (rounds : ℕ) (r : RootOffsets) (lower idx : ℕ)
    → scan rounds (with_lower r lower) idx ≡ scan rounds r idx
unfolding scan max_version root_at
scan-with_lower zero r lower idx = refl
scan-with_lower (suc rounds) r lower idx = rw (scan-with_lower rounds r lower (suc idx)) refl

-- A lower start counts as if the bound had been there before.
pub update_from :
    (r : RootOffsets) (lower : ℕ)
    → lower < r.version_lower_bound
    → 0 < r.next_version
    → r.next_version < 2 ^ 64
    → update_version_lower_bound r lower ≡ update_version_lower_bound (with_lower r lower) lower
unfolding update_version_lower_bound
update_from r lower h pos fits =
    let greatest = max_version-suc r pos fits in
    let greatest' = max_version-suc (with_lower r lower) pos fits in
    let some_version : (r.next_version - 1 == invalid_block_num) ≡ false =
      ground (arith, pos, fits) in
    let here : ltb lower lower ≡ false = ground arith in
    rw
      (
        lt→ltb _ _ h,
        here,
        greatest,
        greatest',
        some_version,
        scan-with_lower (r.next_version - 1 - lower) r lower lower,
      )
      (store_lem r (scan (r.next_version - 1 - lower) r lower)
        ∙ sym (store_lem (with_lower r lower) (scan (r.next_version - 1 - lower) r lower)))

scan_moves :
    (rounds : ℕ) (r : RootOffsets) (idx : ℕ)
    → 0 < rounds
    → is_invalid (root_at r idx) ≡ true
    → idx < max_version r
    → idx < scan rounds r idx
unfolding scan
scan_moves zero r idx pos gone less = absurd (omega arith)
scan_moves (suc rounds) r idx pos gone less =
    let (from, bounded, skipped) = scan_lem rounds r (suc idx) in
    rw (lt→ltb _ _ less, gone) (omega (arith, from))

-- Where the bound goes from its place.
pub update_bounds :
    (r : RootOffsets) (lower : ℕ)
    → r.version_lower_bound ≤ lower
    → r.version_lower_bound < r.next_version
    → r.next_version < 2 ^ 64
    → let r' = update_version_lower_bound r lower in
      (r.version_lower_bound ≤ r'.version_lower_bound)
      × (r'.version_lower_bound < r.next_version)
      × (is_invalid (root_at r r.version_lower_bound) ≡ true
          → r.version_lower_bound + 1 < r.next_version
          → r.version_lower_bound < r'.version_lower_bound)
unfolding update_version_lower_bound
update_bounds r lower place some_in fits =
    let greatest = max_version-suc r (omega (arith, some_in)) fits in
    let some_version : (max_version r == invalid_block_num) ≡ false =
      rw greatest (ground (arith, some_in, fits)) in
    let here : ltb lower r.version_lower_bound ≡ false = ground (arith, place) in
    let lb = r.version_lower_bound in
    let rounds = max_version r - lb in
    let (from, bounded, skipped) = scan_lem rounds r lb in
    let last = bounded (r.next_version - 1) (omega (arith, some_in)) (rw greatest (omega arith)) in
    rw (here, some_version, store_lem r (scan rounds r lb))
      (
        from,
        omega (arith, last, some_in),
        λ gone two.
            scan_moves rounds r lb (rw greatest (omega (arith, two))) gone
              (rw greatest (omega (arith, two))),
      )

pub update_next :
    (r : RootOffsets) (lower : ℕ)
    → (update_version_lower_bound r lower).next_version ≡ r.next_version
unfolding update_version_lower_bound
update_next r lower = elim (Bool-cases (max_version r == invalid_block_num)) [
  | inl e ↦ rw e refl
  | inr e ↦
      let start = if ltb lower r.version_lower_bound then lower else r.version_lower_bound in
      let idx = scan (max_version r - start) r start in
      rw e
        (elim (Bool-cases (idx == r.version_lower_bound)) [ inl f ↦ rw f refl | inr f ↦ rw f refl ])
]
