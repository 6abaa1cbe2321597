-- ===== src/Metadata/Copies.antt =====
-- What the operations on versions do to both copies.
use nomad_mpt.Prelude.{
  ℕ, zero, suc, ◌+◌, ◌-◌, ◌^◌, ◌≤◌, ◌<◌, ◌≡◌, refl, ap, ◌∙◌, arith, ◌==◌, leb, if◌then◌else◌, true,
  false, Bool-cases, inl, inr, none,
}
use nomad_mpt.Result.{ok}
use nomad_mpt.RootOffsets.{is_invalid, invalid_offset, invalid_block_num, RootOffsets, put, assign}
use nomad_mpt.RootOffsets.Window.{roots, IsRing, root_at-put_self}
use nomad_mpt.RootOffsets.Scan.{max_version-suc, update_bounds}
use nomad_mpt.RootOffsets.History.{assign_lem, roots_below}
use nomad_mpt.RootOffsets.Rewind.{assign_next}
use nomad_mpt.Metadata.{
  Aux, db_history_max_version, db_history_range_lower_bound, only_version, update_root_offset,
  clear_root_offsets_up_to_and_including,
}

-- Both copies are the same ring, with some version below its end, and all of the versions that are outside of
-- the history are before its lower bound.
pub record IsAux (bits : ℕ) (r : RootOffsets) (a : Aux) : Type 0 where
  pub in_main : a.main.root_offsets ≡ r
  pub in_copy : a.copy.root_offsets ≡ r
  pub ring : IsRing bits r
  pub inside : r.version_lower_bound < r.next_version
  pub history : r.next_version ≤ r.version_lower_bound + a.main.history_length

-- Where both copies hold the ring, the lower bound of the history is that of the ring.
pub lower_bound_run :
    (bits : ℕ) (r : RootOffsets) (a : Aux)
    → a.main.root_offsets ≡ r
    → IsRing bits r
    → r.version_lower_bound < r.next_version
    → r.next_version ≤ r.version_lower_bound + a.main.history_length
    → db_history_range_lower_bound a ≡ ok r.version_lower_bound
unfolding db_history_range_lower_bound db_history_max_version
lower_bound_run bits r a e h inside history =
    let greatest = max_version-suc r (omega (arith, inside)) h.fits in
    let some_version : (r.next_version - 1 == invalid_block_num) ≡ false =
      ground (arith, inside, h.fits) in
    rw (e, greatest, some_version)
      (elim (Bool-cases (leb a.main.history_length (r.next_version - 1))) [
        | inl f ↦
            let within : leb (r.next_version - 1 - a.main.history_length + 1) r.version_lower_bound
                ≡ true =
              ground (arith, f, history, inside) in
            rw (f, within) refl
        | inr f ↦
            let within : leb 0 r.version_lower_bound ≡ true = ground arith in rw (f, within) refl
      ])

-- A version that is cleared from its place in the window.
clear_one :
    (bits : ℕ) (r : RootOffsets)
    → IsRing bits r
    → r.version_lower_bound + 1 < r.next_version
    → let r' = assign r r.version_lower_bound invalid_offset in
      (r.version_lower_bound < r'.version_lower_bound) × (r'.version_lower_bound < r.next_version)
unfolding assign
clear_one bits r h two =
    let lb = r.version_lower_bound in
    let (from, upto, moves) =
      update_bounds (put r lb invalid_offset) (2 ^ 64 - 1) (omega (arith, h.ordered, h.fits))
        (omega (arith, two)) h.fits in
    (moves (ap is_invalid (root_at-put_self bits r h.size lb invalid_offset)) two, upto)

-- The update of a version that is not the greatest clears no copy.
update_root_offset_run :
    (bits fuel : ℕ) (r : RootOffsets) (a : Aux)
    → IsAux bits r a
    → r.version_lower_bound + 1 < r.next_version
    → let r' = assign r r.version_lower_bound invalid_offset in
      (a' : Aux) × (update_root_offset fuel a r.version_lower_bound invalid_offset ≡ ok a')
      × IsAux bits r' a'
      × ((v : ℕ) → roots r' v ≡ (if v == r.version_lower_bound then none else roots r v))
unfolding update_root_offset only_version db_history_max_version
update_root_offset_run bits fuel r a h two =
    let lb = r.version_lower_bound in
    let r' = assign r lb invalid_offset in
    let next = assign_next r lb invalid_offset in
    let (ring, same) = assign_lem bits r lb invalid_offset h.ring h.inside h.ring.holds in
    let (up, upto) = clear_one bits r h.ring two in
    let greatest = max_version-suc r' (rw next (omega (arith, two))) ring.fits in
    let lower : (lb == r'.next_version - 1) ≡ false = rw next (ground (arith, two)) in
    let done : Aux = record {
      main = record { root_offsets = r'; history_length = a.main.history_length };
      copy = record { root_offsets = r'; history_length = a.copy.history_length };
    } in
    (
      done,
      rw (h.in_main, h.in_copy, greatest, lower) (rw (greatest, lower) refl),
      record {
        in_main = refl;
        in_copy = refl;
        ring = ring;
        inside = rw next upto;
        history = rw next (omega (arith, h.history, up));
      },
      same,
    )

-- Below the lower bound there are no versions to clear.
none_to_clear :
    (r : RootOffsets) (version v : ℕ)
    → version < r.version_lower_bound
    → roots r v ≡ (if leb v version then none else roots r v)
none_to_clear r version v above = elim (Bool-cases (leb v version)) [
  | inl e ↦ rw e (roots_below r v (ground (arith, e, above)))
  | inr e ↦ rw e refl
]

-- Both copies hold one well-formed ring that is not empty and whose lower bound is within the
-- history length. Up to a version below the greatest, on fuel for each version from the lower
-- bound, the loop of clear_root_offsets_up_to_and_including ends and passes all its assertions;
-- in both copies alike the versions up to that one are cleared and the others stay, and the
-- copies are again of this kind.
pub clear_root_offsets_lem :
    (bits scan_fuel fuel version : ℕ) (r : RootOffsets) (a : Aux)
    → IsAux bits r a
    → version + 1 < r.next_version
    → version + 1 < r.version_lower_bound + fuel
    → 0 < fuel
    → (r' : RootOffsets) × (a' : Aux) × (clear_root_offsets_up_to_and_including scan_fuel fuel a
          version
        ≡ ok a')
      × IsAux bits r' a'
      × (r'.next_version ≡ r.next_version)
      × ((v : ℕ) → roots r' v ≡ (if leb v version then none else roots r v))
unfolding clear_root_offsets_up_to_and_including
clear_root_offsets_lem bits scan_fuel zero version r a h shorter enough pos = absurd (omega arith)
clear_root_offsets_lem bits scan_fuel (suc fuel) version r a h shorter enough pos =
    let lb = r.version_lower_bound in
    let lower = lower_bound_run bits r a h.in_main h.ring h.inside h.history in
    let some_version : (lb == invalid_block_num) ≡ false = ground (arith, h.inside, h.ring.fits) in
    elim (Bool-cases (leb lb version)) [
      | inr e ↦ (
        r,
        a,
        rw (lower, some_version, e) refl,
        h,
        refl,
        λ v. none_to_clear r version v (ground (arith, e)),
      )
      | inl e ↦
          let from : lb ≤ version = ground (arith, e) in
          let r' = assign r lb invalid_offset in
          let (a', runs, h', same) =
            update_root_offset_run bits scan_fuel r a h (omega (arith, from, shorter)) in
          let next = assign_next r lb invalid_offset in
          let (up, upto) = clear_one bits r h.ring (omega (arith, from, shorter)) in
          let (r'', a'', rest, h'', next', same') =
            clear_root_offsets_lem bits scan_fuel fuel version r' a' h' (rw next shorter)
              (omega (arith, up, enough)) (omega (arith, from, enough)) in
          (
            r'',
            a'',
            rw (lower, some_version, e, runs) rest,
            h'',
            next' ∙ next,
            λ v. same' v ∙ elim (Bool-cases (leb v version)) [
              | inl f ↦ rw f refl
              | inr f ↦
                  let other : (v == lb) ≡ false = ground (arith, f, from) in
                  rw f (same v ∙ rw other refl)
            ],
          )
    ]
