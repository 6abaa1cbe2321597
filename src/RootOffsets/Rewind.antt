-- ===== src/RootOffsets/Rewind.antt =====
-- A rewind and a reset of the ring.
use nomad_mpt.Prelude.{
  ℕ, zero, suc, ◌+◌, ◌-◌, ◌%◌, ◌^◌, ◌≤◌, ◌<◌, ◌≡◌, refl, sym, ap, ◌∙◌, arith, ◌==◌, leb, ltb,
  if◌then◌else◌, not, true, false, Bool-cases, inl, inr, none, ltb→lt, ==→eq, length-replicate,
  replicate, get_or, length,
}
use native.Mathlib.Nat.{one-le-pow, add-suc, suc-add}
use nomad_mpt.Result.{ok}
use nomad_mpt.RootOffsets.{invalid_block_num, push}
use nomad_mpt.RootOffsets.{
  ChunkOffset, is_invalid, invalid_offset, RootOffsets, capacity, root_at, max_version, with_lower,
  with_next, put, assign, reset_all, clear_from, rewind_to_version, update_version_lower_bound,
}
use nomad_mpt.RootOffsets.Window.{valid, roots, IsRing, root_at_lap}
use nomad_mpt.RootOffsets.Scan.{
  max_version-suc, update_version_lower_bound_lem, update_next, valid-none,
}
use nomad_mpt.RootOffsets.History.{push_lem, assign_lem, none_invalid, roots_below}

get_or-replicate : (n i : ℕ) → get_or (replicate n invalid_offset) i invalid_offset ≡ invalid_offset
get_or-replicate zero i = refl
get_or-replicate (suc n) zero = refl
get_or-replicate (suc n) (suc i) = get_or-replicate n i

reset_all-IsRing :
    (bits : ℕ) (r : RootOffsets) (version : ℕ)
    → capacity r ≡ 2 ^ bits
    → version < 2 ^ 64
    → IsRing bits (reset_all r version) × ((v : ℕ) → roots (reset_all r version) v ≡ none)
unfolding reset_all roots root_at
reset_all-IsRing bits r version size fits = (
  record {
    size = length-replicate (capacity r) invalid_offset ∙ size;
    fits = fits;
    ordered = omega arith;
    holds = omega arith;
    outside = λ v le less.
        ap is_invalid
          (get_or-replicate (capacity r) (v % length (replicate (capacity r) invalid_offset)));
  },
  λ v. elim (Bool-cases (leb version v)) [
    | inr e ↦ rw e refl
    | inl e ↦ let out : ltb v version ≡ false = ground (arith, e) in rw (e, out) refl
  ],
)

-- A ring whose capacity is a power of two is reset to a version of 64 bits that is not the greatest of
-- them: no version is in it, the greatest is the one before the version, or none where that is 0, and
-- a push then makes the version the greatest and the only one, with the offset that is pushed.
pub reset_all_lem :
    (bits : ℕ) (r : RootOffsets) (version : ℕ) (o : ChunkOffset)
    → capacity r ≡ 2 ^ bits
    → version + 1 < 2 ^ 64
    → ((v : ℕ) → roots (reset_all r version) v ≡ none)
      × (max_version (reset_all r version)
          ≡ (if version == 0 then invalid_block_num else version - 1))
      × ((r' : RootOffsets) × (push (reset_all r version) o ≡ ok r')
          × IsRing bits r'
          × (max_version r' ≡ version)
          × ((v : ℕ) → roots r' v ≡ (if v == version then valid o else none)))
reset_all_lem bits r version o size fits =
    let (ring, gone) = reset_all-IsRing bits r version size (omega arith) in
    let next : (reset_all r version).next_version ≡ version = unfold reset_all in refl in
    let lower : (reset_all r version).version_lower_bound ≡ version = unfold reset_all in refl in
    let (r', pushed, ring', last, same) =
      push_lem bits (reset_all r version) o ring
        (rw (next, lower) (omega (arith, one-le-pow bits 2 (omega arith)))) (rw next fits) in
    (
      gone,
      unfold max_version in
          rw next (elim (Bool-cases (version == 0)) [
            | inl e ↦ rw (e, ==→eq _ _ e) refl
            | inr e ↦ rw e (ground (arith, e, fits))
          ]),
      (
        r',
        pushed,
        ring',
        max_version-suc r' (rw last (omega arith)) ring'.fits ∙ rw (last, next) (omega arith),
        λ v. same v ∙ rw (gone v, next) refl,
      ),
    )

pub assign_next :
    (r : RootOffsets) (i : ℕ) (o : ChunkOffset) → (assign r i o).next_version ≡ r.next_version
unfolding assign
assign_next r i o = update_next (put r i o) (if not (is_invalid o) then i else 2 ^ 64 - 1)

pub roots_behind : (r : RootOffsets) (v : ℕ) → r.next_version ≤ v → roots r v ≡ none
unfolding roots
roots_behind r v le =
    let out : ltb v r.next_version ≡ false = ground (arith, le) in
    elim (Bool-cases (leb r.version_lower_bound v)) [ inl e ↦ rw (e, out) refl | inr e ↦ rw e refl ]

-- What the loop leaves: the versions below its start.
clear_from_lem :
    (bits rounds : ℕ) (r : RootOffsets) (i : ℕ)
    → IsRing bits r
    → i + rounds ≡ r.next_version
    → r.next_version ≤ i + 2 ^ bits
    → IsRing bits (clear_from rounds r i)
      × ((clear_from rounds r i).next_version ≡ r.next_version)
      × ((v : ℕ) → roots (clear_from rounds r i) v ≡ (if leb i v then none else roots r v))
unfolding clear_from
clear_from_lem bits zero r i h ends near = (
  h,
  refl,
  λ v. elim (Bool-cases (leb i v)) [
    | inl e ↦ rw e (roots_behind r v (ground (arith, e, ends)))
    | inr e ↦ rw e refl
  ],
)
clear_from_lem bits (suc rounds) r i h ends near =
    let next : i + suc rounds ≡ suc (i + rounds) = add-suc i rounds in
    let upto : i < r.next_version = omega (arith, ends, next) in
    let below : leb i (max_version r) ≡ true =
      rw (max_version-suc r (omega (arith, upto)) h.fits) (ground (arith, upto)) in
    let (ring, same) = assign_lem bits r i invalid_offset h upto near in
    let grown = assign_next r i invalid_offset in
    let (ring', next', same') =
      clear_from_lem bits rounds (assign r i invalid_offset) (suc i) ring
        (suc-add i rounds ∙ sym next ∙ ends ∙ sym grown) (rw grown (omega (arith, near, upto))) in
    rw below (
      ring',
      next' ∙ grown,
      λ v. same' v ∙ elim (Bool-cases (leb (suc i) v)) [
        | inl e ↦ let e' : leb i v ≡ true = ground (arith, e) in rw (e, e') refl
        | inr e ↦ elim (Bool-cases (v == i)) [
          | inl f ↦ let f' : leb i v ≡ true = ground (arith, f) in rw (e, f') (same v ∙ rw f refl)
          | inr f ↦
              let f' : leb i v ≡ false = ground (arith, e, f) in rw (e, f') (same v ∙ rw f refl)
        ]
      ],
    )

-- After the loop every entry that the window or its next lap gives to a version behind the one that is kept is invalid.
cleared_invalid :
    (bits : ℕ) (r : RootOffsets) (version v : ℕ)
    → IsRing bits r
    → r.next_version ≤ version + 1 + 2 ^ bits
    → ((u : ℕ) → version < u → roots r u ≡ none)
    → version < v
    → v < r.version_lower_bound + 2 ^ bits
    → is_invalid (root_at r v) ≡ true
cleared_invalid bits r version v h near gone behind less =
    elim (Bool-cases (ltb v r.next_version)) [
      | inr e ↦ h.outside v (ground (arith, e)) less
      | inl e ↦ elim (Bool-cases (ltb v r.version_lower_bound)) [
        | inr f ↦ none_invalid r v (ground (arith, f)) (ltb→lt _ _ e) (gone v behind)
        | inl f ↦
            ap is_invalid (sym (root_at_lap bits r h.size v))
            ∙ h.outside (v + 2 ^ bits) (omega (arith, behind, near)) (ground (arith, f))
      ]
    ]

roots_invalid : (r : RootOffsets) (v : ℕ) → valid (root_at r v) ≡ none → roots r v ≡ none
unfolding roots
roots_invalid r v e = elim (Bool-cases (leb r.version_lower_bound v)) [
  | inr f ↦ rw f refl
  | inl f ↦ elim (Bool-cases (ltb v r.next_version)) [
    | inl g ↦ rw (f, g, e) refl
    | inr g ↦ rw (f, g) refl
  ]
]

-- A window of one version whose entry is invalid.
roots_single :
    (r : RootOffsets) (version v : ℕ)
    → is_invalid (root_at r version) ≡ true
    → roots (with_next (with_lower r version) (version + 1)) v ≡ none
roots_single r version v own =
    let cut = with_next (with_lower r version) (version + 1) in
    elim (Bool-cases (ltb v version)) [
      | inl e ↦ roots_below cut v (ltb→lt _ _ e)
      | inr e ↦ elim (Bool-cases (ltb version v)) [
        | inl f ↦ roots_behind cut v (ground (arith, f))
        | inr f ↦
            let at_version : v ≡ version = ground (arith, e, f) in
            let entry : valid (root_at cut version) ≡ none =
              unfold root_at in valid-none (root_at r version) own in
            rw at_version (roots_invalid cut version entry)
      ]
    ]

-- The ring cut off behind a version, whose entry may be before the lower bound.
cut_lem :
    (bits : ℕ) (r : RootOffsets) (version : ℕ)
    → IsRing bits r
    → version + 1 < r.next_version
    → r.next_version ≤ version + 1 + 2 ^ bits
    → ((u : ℕ) → version < u → roots r u ≡ none)
    → let lowered = if ltb version r.version_lower_bound then with_lower r version else r in
      IsRing bits (with_next lowered (version + 1))
      × ((v : ℕ) → roots (with_next lowered (version + 1)) v ≡ roots r v)
unfolding roots
cut_lem bits r version h shorter near gone =
    let pos : 1 ≤ 2 ^ bits = one-le-pow bits 2 (omega arith) in
    let again : (n m v : ℕ) → root_at (with_next (with_lower r n) m) v ≡ root_at r v =
      λ n m v. unfold root_at in refl in
    elim (Bool-cases (ltb version r.version_lower_bound)) [
      | inr e ↦ rw e (
        record {
          size = h.size;
          fits = omega (arith, shorter, h.fits);
          ordered = ground (arith, e);
          holds = omega (arith, shorter, h.holds);
          outside = λ v le less.
              ap is_invalid (again r.version_lower_bound (version + 1) v)
              ∙ cleared_invalid bits r version v h near gone (omega (arith, le)) less;
        },
        λ v. elim (Bool-cases (ltb v (version + 1))) [
          | inl f ↦
              let f' : ltb v r.next_version ≡ true = ground (arith, f, shorter) in
              rw (f, f', again r.version_lower_bound (version + 1) v) refl
          | inr f ↦
              roots_behind (with_next r (version + 1)) v (ground (arith, f))
              ∙ sym (gone v (ground (arith, f)))
        ],
      )
      | inl e ↦
          let less' = ltb→lt _ _ e in
          let own : is_invalid (root_at r version) ≡ true =
            ap is_invalid (sym (root_at_lap bits r h.size version))
            ∙ cleared_invalid bits r version (version + 2 ^ bits) h near gone (omega (arith, pos))
                (omega (arith, less')) in
          rw e (
            record {
              size = h.size;
              fits = omega (arith, shorter, h.fits);
              ordered = omega arith;
              holds = omega (arith, pos);
              outside = λ v le less.
                  ap is_invalid (again version (version + 1) v)
                  ∙ cleared_invalid bits r version v h near gone (omega (arith, le))
                      (omega (arith, less, less'));
            },
            λ v.
                roots_single r version v own
                ∙ sym (elim (Bool-cases (ltb version v)) [
                  | inl f ↦ gone v (ltb→lt _ _ f)
                  | inr f ↦ roots_below r v (ground (arith, f, less'))
                ]),
          )
    ]

-- In a well-formed ring, a rewind to a version below the greatest, by at most the capacity,
-- passes its assertions and leaves a well-formed ring: that version is the greatest then, the
-- versions behind it are gone, and those up to it stay.
pub rewind_to_version_lem :
    (bits : ℕ) (r : RootOffsets) (version : ℕ)
    → IsRing bits r
    → version + 1 < r.next_version
    → r.next_version ≤ version + 1 + 2 ^ bits
    → (r' : RootOffsets) × (rewind_to_version r version ≡ ok r')
      × IsRing bits r'
      × (max_version r' ≡ version)
      × ((v : ℕ) → roots r' v ≡ (if leb v version then roots r v else none))
unfolding rewind_to_version
rewind_to_version_lem bits r version h shorter near =
    let greatest = max_version-suc r (omega (arith, shorter)) h.fits in
    let below : ltb version (max_version r) ≡ true = rw greatest (ground (arith, shorter)) in
    let reached : leb (max_version r - version) (capacity r) ≡ true =
      rw (greatest, h.size) (ground (arith, near)) in
    let rounds = max_version r - version in
    let cleared = clear_from rounds r (version + 1) in
    let lowered =
      if ltb version cleared.version_lower_bound then with_lower cleared version else cleared in
    let ends : version + 1 + rounds ≡ r.next_version = rw greatest (omega (arith, shorter)) in
    let (ring, next, same) = clear_from_lem bits rounds r (version + 1) h ends near in
    let gone : (u : ℕ) → version < u → roots cleared u ≡ none = λ u behind.
      let behind' : leb (version + 1) u ≡ true = ground (arith, behind) in
      same u ∙ rw behind' refl in
    let (cut, cut_same) = cut_lem bits cleared version ring (rw next shorter) (rw next near) gone in
    let (ring', same') =
      update_version_lower_bound_lem bits (with_next lowered (version + 1)) (2 ^ 64 - 1) cut
        (omega arith) (inl (omega (arith, cut.ordered, cut.fits))) in
    let last = update_next (with_next lowered (version + 1)) (2 ^ 64 - 1) in
    let result = update_version_lower_bound (with_next lowered (version + 1)) (2 ^ 64 - 1) in
    rw (below, reached)
      (
        result,
        refl,
        ring',
        max_version-suc result (rw last (omega arith)) (rw last (omega (arith, shorter, h.fits)))
            ∙ rw last (omega arith),
        λ v. same' v ∙ cut_same v ∙ same v ∙ elim (Bool-cases (leb v version)) [
          | inl e ↦ let e' : leb (version + 1) v ≡ false = ground (arith, e) in rw (e, e') refl
          | inr e ↦ let e' : leb (version + 1) v ≡ true = ground (arith, e) in rw (e, e') refl
        ],
      )
