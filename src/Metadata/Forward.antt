-- ===== src/Metadata/Forward.antt =====
-- A new version behind a gap, in both copies.
use nomad_mpt.Prelude.{
  ℕ, zero, suc, ◌+◌, ◌-◌, ◌%◌, ◌^◌, ◌≤◌, ◌<◌, ◌≡◌, refl, sym, ap, ◌∙◌, arith, ◌==◌, leb, ltb,
  if◌then◌else◌, true, false, Bool-cases, inl, inr, ltb→lt, lt→ltb, ==→eq,
}
use nomad_mpt.Result.{ok, ◌>>=◌}
use nomad_mpt.RootOffsets.{
  ChunkOffset, invalid_offset, invalid_block_num, RootOffsets, capacity, max_version, put,
  with_next, push,
}
use nomad_mpt.RootOffsets.Window.{valid, roots, IsRing}
use nomad_mpt.RootOffsets.Laws.{put_lem}
use nomad_mpt.RootOffsets.Scan.{max_version-suc}
use nomad_mpt.RootOffsets.History.{push_lem, roots_next}
use nomad_mpt.Metadata.{
  Aux, push_until, fast_forward_ring, fast_forward_next_version, append_root_offset,
}
use nomad_mpt.Metadata.Copies.{IsAux}

-- A push of no offset
skip_one :
    (bits : ℕ) (r : RootOffsets)
    → IsRing bits r
    → r.next_version + 1 < 2 ^ 64
    → r.next_version < r.version_lower_bound + 2 ^ bits
    → let r' = with_next (put r r.next_version invalid_offset) (r.next_version + 1) in
      (push r invalid_offset ≡ ok r') × IsRing bits r' × ((v : ℕ) → roots r' v ≡ roots r v)
unfolding push
skip_one bits r h fits room =
    let n = r.next_version + 1 in
    let word : n % 2 ^ 64 ≡ n = omega arith in
    let some_version : (n == 0) ≡ false = ground arith in
    let (ring, same) =
      put_lem bits r r.next_version n invalid_offset h h.ordered (omega arith) (omega arith)
        (omega arith) (omega (arith, room)) fits in
    (
      rw (word, some_version) refl,
      ring,
      λ v. same v ∙ elim (Bool-cases (v == r.next_version)) [
        | inl e ↦ rw e (sym (ap (roots r) (==→eq _ _ e) ∙ roots_next r))
        | inr e ↦ rw e refl
      ],
    )

push_until_step :
    (rounds : ℕ) (r r' : RootOffsets) (new_version : ℕ)
    → 0 < r.next_version
    → r.next_version < 2 ^ 64
    → r.next_version < new_version
    → push r invalid_offset ≡ ok r'
    → push_until (suc rounds) r new_version ≡ push_until rounds r' new_version
unfolding push_until
push_until_step rounds r r' new_version some_in fits less runs =
    let back : r.next_version - 1 + 1 ≡ r.next_version = omega arith in
    rw (max_version-suc r some_in fits, back, lt→ltb _ _ less, runs) refl

-- The loop skips the versions below the new one.
push_until_lem :
    (bits rounds : ℕ) (r : RootOffsets) (new_version : ℕ)
    → IsRing bits r
    → 0 < r.next_version
    → r.next_version ≤ new_version
    → new_version < r.next_version + rounds
    → new_version < r.version_lower_bound + 2 ^ bits
    → new_version < 2 ^ 64
    → (r' : RootOffsets) × (push_until rounds r new_version ≡ ok r')
      × IsRing bits r'
      × (r'.next_version ≡ new_version)
      × (r'.version_lower_bound ≡ r.version_lower_bound)
      × ((v : ℕ) → roots r' v ≡ roots r v)
unfolding push_until
push_until_lem bits zero r new_version h some_in upto enough room fits = absurd (omega arith)
push_until_lem bits (suc rounds) r new_version h some_in upto enough room fits =
    let greatest = max_version-suc r some_in h.fits in
    let back : r.next_version - 1 + 1 ≡ r.next_version = omega arith in
    elim (Bool-cases (ltb r.next_version new_version)) [
      | inr e ↦ (r, rw (greatest, back, e) refl, h, ground (arith, e, upto), refl, λ v. refl)
      | inl e ↦
          let less = ltb→lt _ _ e in
          let (runs, ring, same) =
            skip_one bits r h (omega (arith, less, fits)) (omega (arith, less, room)) in
          let (r', rest, ring', next', lower', same') =
            push_until_lem bits rounds
              (with_next (put r r.next_version invalid_offset) (r.next_version + 1)) new_version
              ring (omega arith) (omega (arith, less)) (omega (arith, enough)) room fits in
          (
            r',
            push_until_step rounds r _ new_version some_in h.fits less runs ∙ rest,
            ring',
            next',
            lower',
            λ v. same' v ∙ same v,
          )
    ]

fast_forward_pushes :
    (r : RootOffsets) (new_version : ℕ) {greatest : ℕ}
    → max_version r ≡ greatest
    → (greatest == invalid_block_num) ≡ false
    → ltb greatest new_version ≡ true
    → leb (capacity r) (new_version - greatest) ≡ false
    → fast_forward_ring r new_version ≡ push_until (new_version - greatest) r new_version
unfolding fast_forward_ring
fast_forward_pushes r new_version e some_version ahead near = rw (e, some_version, ahead, near) refl

fast_forward_ring_lem :
    (bits : ℕ) (r : RootOffsets) (new_version : ℕ)
    → IsRing bits r
    → r.version_lower_bound < r.next_version
    → r.next_version ≤ new_version
    → new_version < r.version_lower_bound + 2 ^ bits
    → new_version < 2 ^ 64
    → (r' : RootOffsets) × (fast_forward_ring r new_version ≡ ok r')
      × IsRing bits r'
      × (r'.next_version ≡ new_version)
      × (r'.version_lower_bound ≡ r.version_lower_bound)
      × ((v : ℕ) → roots r' v ≡ roots r v)
fast_forward_ring_lem bits r new_version h inside upto room fits =
    let greatest = max_version-suc r (omega (arith, inside)) h.fits in
    let some_version : (r.next_version - 1 == invalid_block_num) ≡ false =
      ground (arith, inside, h.fits) in
    let ahead : ltb (r.next_version - 1) new_version ≡ true = ground (arith, inside, upto) in
    let near : leb (2 ^ bits) (new_version - (r.next_version - 1)) ≡ false =
      ground (arith, inside, upto, room) in
    let (r', runs, ring, next, lower, same) =
      push_until_lem bits (new_version - (r.next_version - 1)) r new_version h
        (omega (arith, inside)) upto (omega (arith, inside, upto)) room fits in
    (
      r',
      fast_forward_pushes r new_version greatest some_version ahead (rw h.size near) ∙ runs,
      ring,
      next,
      lower,
      same,
    )

-- Both copies hold one well-formed ring that is not empty and whose lower bound is within the
-- history length. Where a new version is behind the greatest one, less than the capacity from the
-- lower bound, and below 2 ^ 64 - 1, fast_forward_next_version and append_root_offset pass all
-- their assertions and leave both copies alike: well-formed, with the new version as the greatest
-- and with its root, while the other versions keep theirs.
pub fast_forward-append :
    (bits new_version : ℕ) (r : RootOffsets) (a : Aux) (o : ChunkOffset)
    → IsAux bits r a
    → r.next_version ≤ new_version
    → new_version < r.version_lower_bound + 2 ^ bits
    → new_version + 1 < 2 ^ 64
    → (r' : RootOffsets) × (a' : Aux) × ((fast_forward_next_version a new_version >>= λ b.
          append_root_offset b o)
        ≡ ok a')
      × (a'.main.root_offsets ≡ r')
      × (a'.copy.root_offsets ≡ r')
      × IsRing bits r'
      × (max_version r' ≡ new_version)
      × ((v : ℕ) → roots r' v ≡ (if v == new_version then valid o else roots r v))
unfolding fast_forward_next_version append_root_offset
fast_forward-append bits new_version r a o h upto room fits =
    let (ahead, forward, ring, next, lower, same) =
      fast_forward_ring_lem bits r new_version h.ring h.inside upto room (omega (arith, fits)) in
    let (r', pushed, ring', last, same') =
      push_lem bits ahead o ring (rw (next, lower) room) (rw next fits) in
    (
      r',
      record {
        main = record { root_offsets = r'; history_length = a.main.history_length };
        copy = record { root_offsets = r'; history_length = a.copy.history_length };
      },
      rw (h.in_main, h.in_copy, forward, pushed) refl,
      refl,
      refl,
      ring',
      max_version-suc r' (rw last (omega arith)) ring'.fits ∙ rw (last, next) (omega arith),
      λ v. same' v ∙ rw (next, same v) refl,
    )
