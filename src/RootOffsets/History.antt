-- ===== src/RootOffsets/History.antt =====
-- Each operation on the ring as a change of the history.
use nomad_mpt.Prelude.{
  ℕ, ◌+◌, ◌-◌, ◌%◌, ◌^◌, ◌≤◌, ◌<◌, ◌≡◌, refl, sym, ap, ◌∙◌, arith, ◌==◌, leb, ltb, if◌then◌else◌,
  not, true, false, Bool-cases, inl, inr, none, some, ltb→lt, lt→ltb, ==→eq,
}
use nomad_mpt.Result.{ok}
use nomad_mpt.RootOffsets.{
  ChunkOffset, is_invalid, RootOffsets, root_at, with_lower, with_next, put, push, assign,
  update_version_lower_bound,
}
use nomad_mpt.RootOffsets.Window.{valid, roots, IsRing}
use nomad_mpt.RootOffsets.Scan.{
  raise_lem, lower_lem, update_version_lower_bound_lem, update_next, update_from,
}
use nomad_mpt.RootOffsets.Laws.{put_lem}

-- In a well-formed ring whose window has room for one version more, and whose versions do not
-- reach 2 ^ 64 - 1, push passes its assertion and leaves a well-formed ring: the next version has
-- the offset that is pushed, and the other versions keep theirs.
pub push_lem :
    (bits : ℕ) (r : RootOffsets) (o : ChunkOffset)
    → IsRing bits r
    → r.next_version < r.version_lower_bound + 2 ^ bits
    → r.next_version + 1 < 2 ^ 64
    → (r' : RootOffsets) × (push r o ≡ ok r')
      × IsRing bits r'
      × (r'.next_version ≡ r.next_version + 1)
      × ((v : ℕ) → roots r' v ≡ (if v == r.next_version then valid o else roots r v))
unfolding push
push_lem bits r o h room fits =
    let n = r.next_version + 1 in
    let word : n % 2 ^ 64 ≡ n = omega arith in
    let some_version : (n == 0) ≡ false = ground arith in
    let (ring, same) =
      put_lem bits r r.next_version n o h h.ordered (omega arith) (omega arith) (omega arith)
        (omega arith) fits in
    let tidy : (v : ℕ)
        → roots (with_next (put r r.next_version o) n) v
          ≡ (if v == r.next_version then valid o else roots r v) =
      λ v.
        same v
        ∙ elim (Bool-cases (v == r.next_version)) [ inl e ↦ rw e refl | inr e ↦ rw e refl ] in
    rw (word, some_version)
      (elim (Bool-cases (is_invalid o)) [
        | inl e ↦
            rw e (with_next (put r r.next_version o) n, refl, ring, refl, λ v. tidy v ∙ rw e refl)
        | inr e ↦
            let (ring', same') =
              update_version_lower_bound_lem bits (with_next (put r r.next_version o) n)
                (2 ^ 64 - 1) ring (omega arith) (inl (omega (arith, h.ordered, fits))) in
            rw e (
              update_version_lower_bound (with_next (put r r.next_version o) n) (2 ^ 64 - 1),
              refl,
              ring',
              update_next (with_next (put r r.next_version o) n) (2 ^ 64 - 1),
              λ v. same' v ∙ tidy v ∙ rw e refl,
            )
      ])

pub roots_next : (r : RootOffsets) → roots r r.next_version ≡ none
unfolding roots
roots_next r =
    let out : ltb r.next_version r.next_version ≡ false = ground arith in
    elim (Bool-cases (leb r.version_lower_bound r.next_version)) [
      | inl e ↦ rw (e, out) refl
      | inr e ↦ rw e refl
    ]

pub roots_below : (r : RootOffsets) (v : ℕ) → v < r.version_lower_bound → roots r v ≡ none
unfolding roots
roots_below r v h = let out : leb r.version_lower_bound v ≡ false = ground (arith, h) in rw out refl

-- Inside of the window a version that is not there has an invalid entry.
pub none_invalid :
    (r : RootOffsets) (v : ℕ)
    → r.version_lower_bound ≤ v
    → v < r.next_version
    → roots r v ≡ none
    → is_invalid (root_at r v) ≡ true
unfolding roots
none_invalid r v from upto e =
    let low : leb r.version_lower_bound v ≡ true = ground (arith, from) in
    elim (Bool-cases (is_invalid (root_at r v))) [
      | inl f ↦ f
      | inr f ↦ absurd (clash (rw (low, lt→ltb _ _ upto, f) at e))
    ]
  where
    clash : some (root_at r v) ≡ none → ⊥
    clash e' = cc

-- A store at a version of the window.
put_within :
    (bits : ℕ) (r : RootOffsets) (i : ℕ) (o : ChunkOffset)
    → IsRing bits r
    → r.version_lower_bound ≤ i
    → i < r.next_version
    → IsRing bits (put r i o)
      × ((v : ℕ) → roots (put r i o) v ≡ (if v == i then valid o else roots r v))
put_within bits r i o h from upto =
    let (ring, same) =
      put_lem bits r i r.next_version o h from upto (omega arith) (omega arith) h.holds h.fits in
    (
      ring,
      λ v. same v ∙ elim (Bool-cases (v == i)) [
        | inl e ↦ rw e refl
        | inr e ↦ elim (Bool-cases (v == r.next_version)) [
          | inl f ↦ rw (e, f) (sym (ap (roots r) (==→eq _ _ f) ∙ roots_next r))
          | inr f ↦ rw (e, f) refl
        ]
      ],
    )

-- In a well-formed ring, an assignment to a version below the next one that the capacity reaches,
-- which may lie before the lower bound, leaves a well-formed ring in which that version and no
-- other has changed.
pub assign_lem :
    (bits : ℕ) (r : RootOffsets) (i : ℕ) (o : ChunkOffset)
    → IsRing bits r
    → i < r.next_version
    → r.next_version ≤ i + 2 ^ bits
    → IsRing bits (assign r i o)
      × ((v : ℕ) → roots (assign r i o) v ≡ (if v == i then valid o else roots r v))
unfolding assign
assign_lem bits r i o h upto near = elim (Bool-cases (ltb i r.version_lower_bound)) [
  | inr e ↦
      let from : r.version_lower_bound ≤ i = ground (arith, e) in
      let (ring, same) = put_within bits r i o h from upto in
      let (ring', same') =
        update_version_lower_bound_lem bits (put r i o)
          (if not (is_invalid o) then i else 2 ^ 64 - 1) ring (omega (arith, upto))
          (inl (elim (Bool-cases (is_invalid o)) [
            | inl f ↦ rw f (omega (arith, h.ordered, h.fits))
            | inr f ↦ rw f from
          ])) in
      (ring', λ v. same' v ∙ same v)
  | inl e ↦
      let less : i < r.version_lower_bound = ltb→lt _ _ e in
      let (wide, wide_same) = lower_lem bits r i h (omega (arith, less)) near in
      let (ring, same) = put_within bits (with_lower r i) i o wide (omega arith) upto in
      let tidy : (v : ℕ)
          → roots (put (with_lower r i) i o) v ≡ (if v == i then valid o else roots r v) =
        λ v. rw (sym (wide_same v)) (same v) in
      elim (Bool-cases (is_invalid o)) [
        | inr f ↦
            let (ring', same') =
              update_version_lower_bound_lem bits (with_lower (put r i o) i) i ring
                (omega (arith, upto)) (inl (omega arith)) in
            rw (f, update_from (put r i o) i less (omega (arith, upto)) h.fits)
              (ring', λ v. same' v ∙ tidy v ∙ rw f refl)
        | inl f ↦
            let gone : (v : ℕ)
                → i ≤ v
                → v < r.version_lower_bound
                → is_invalid (root_at (put (with_lower r i) i o) v) ≡ true =
              λ v a b. none_invalid (put (with_lower r i) i o) v a (omega (arith, b, h.ordered)) (
                tidy v ∙ elim (Bool-cases (v == i)) [
                  | inl g ↦ rw (g, f) refl
                  | inr g ↦ rw g (roots_below r v b)
                ]) in
            let (narrow, narrow_same) =
              raise_lem bits (put (with_lower r i) i o) r.version_lower_bound ring
                (omega (arith, less)) h.ordered gone in
            let (ring', same') =
              update_version_lower_bound_lem bits (put r i o) (2 ^ 64 - 1) narrow
                (omega (arith, upto)) (inl (omega (arith, h.ordered, h.fits))) in
            rw f (ring', λ v. same' v ∙ narrow_same v ∙ tidy v ∙ rw f refl)
      ]
]
