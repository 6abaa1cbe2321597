-- ===== src/Metadata/Last.antt =====
-- What clearing the only version leaves in the two copies.
use nomad_mpt.Prelude.{
  ℕ, zero, suc, ◌+◌, ◌-◌, ◌%◌, ◌^◌, ◌≤◌, ◌<◌, ◌≡◌, refl, ap, ◌∙◌, arith, ◌==◌, ltb, true, false,
  Bool-cases, inl, inr, none, ltb→lt, ==→eq, ==_self,
}
use native.Mathlib.Nat.{one-le-pow}
use nomad_mpt.Result.{ok}
use nomad_mpt.RootOffsets.{
  is_invalid, invalid_offset, invalid_block_num, RootOffsets, root_at, max_version, put, assign,
  reset_all,
}
use nomad_mpt.RootOffsets.Window.{roots}
use nomad_mpt.RootOffsets.Scan.{max_version-suc, update_bounds}
use nomad_mpt.RootOffsets.History.{assign_lem, none_invalid}
use nomad_mpt.RootOffsets.Rewind.{assign_next, roots_behind}
use nomad_mpt.Metadata.{
  Aux, with_main, with_root_offsets, db_history_max_version, first_valid,
  db_history_min_valid_version, only_version, update_root_offset,
}
use nomad_mpt.Metadata.Copies.{IsAux, lower_bound_run}

-- The loop ends at the greatest version, where no earlier one is valid.
first_valid_run :
    (fuel : ℕ) (r : RootOffsets) (i start : ℕ)
    → max_version r ≡ i
    → i < 2 ^ 64
    → start ≤ i
    → i < start + fuel
    → ((v : ℕ) → start ≤ v → v < i → is_invalid (root_at r v) ≡ true)
    → first_valid fuel r start ≡ ok i
unfolding first_valid
first_valid_run zero r i start e small upto enough gone = absurd (omega arith)
first_valid_run (suc fuel) r i start e small upto enough gone = elim (Bool-cases (start == i)) [
  | inl f ↦ rw (e, f) (ap ok (==→eq _ _ f))
  | inr f ↦
      let less : start < i = ground (arith, f, upto) in
      let word : (start + 1) % 2 ^ 64 ≡ start + 1 = omega (arith, less, small) in
      rw (e, f, gone start (omega arith) less, word)
        (first_valid_run fuel r i (start + 1) e small (omega (arith, less)) (omega arith)
          (λ v le h. gone v (omega (arith, le)) h))
]

-- The bound behind an assignment of no offset.
assign_bounds :
    (r : RootOffsets) (i : ℕ)
    → r.version_lower_bound < r.next_version
    → r.next_version < 2 ^ 64
    → let r' = assign r i invalid_offset in
      (r.version_lower_bound ≤ r'.version_lower_bound) × (r'.version_lower_bound < r.next_version)
unfolding assign
assign_bounds r i inside fits =
    let (from, upto, _) =
      update_bounds (put r i invalid_offset) (2 ^ 64 - 1) (omega (arith, inside, fits)) inside
        fits in
    (from, upto)

-- Whether the version is the only one is seen in the first copy.
only_version_run :
    (bits fuel i : ℕ) (r : RootOffsets) (a : Aux)
    → IsAux bits r a
    → i + 1 ≡ r.next_version
    → ((v : ℕ) → v < i → roots r v ≡ none)
    → r.next_version ≤ r.version_lower_bound + fuel
    → only_version fuel
        (with_main a (with_root_offsets a.main (assign r i invalid_offset)))
        i
        invalid_offset
      ≡ ok true
unfolding only_version db_history_min_valid_version db_history_max_version
only_version_run bits fuel i r a h last gone enough =
    let r' = assign r i invalid_offset in
    let assigned = with_main a (with_root_offsets a.main r') in
    let next = assign_next r i invalid_offset in
    let (from, upto) = assign_bounds r i h.inside h.ring.fits in
    let (ring, same) =
      assign_lem bits r i invalid_offset h.ring (omega (arith, last))
        (omega (arith, last, h.inside, h.ring.holds, one-le-pow bits 2 (omega arith))) in
    let greatest : max_version r' ≡ i =
      max_version-suc r' (rw next (omega (arith, last))) ring.fits
      ∙ rw next (omega (arith, last)) in
    let lower =
      lower_bound_run bits r' assigned refl ring (rw next upto)
        (rw next (omega (arith, h.history, from))) in
    let least =
      first_valid_run fuel r' i r'.version_lower_bound greatest (omega (arith, last, h.ring.fits))
        (omega (arith, last, upto)) (omega (arith, last, enough, from))
        (λ v le less. none_invalid r' v le (rw next (omega (arith, less, last))) (
          same v
          ∙ elim (Bool-cases (v == i)) [ inl e ↦ rw e refl | inr e ↦ rw e (gone v less) ])) in
    rw (greatest, ==_self i, lower, least) (ap ok (==_self i))

-- Both copies hold one well-formed ring that is not empty and whose lower bound is within the
-- history length, and no version below the greatest is valid. Where the greatest is cleared, on
-- fuel for the versions of the window, update_root_offset passes its assertions and resets the
-- first copy to no versions. It does not reset the second: the test looks at the first copy,
-- which is reset by then, so the second still has that version as its greatest, and no version
-- with a root.
pub update_root_offset_lem :
    (bits fuel i : ℕ) (r : RootOffsets) (a : Aux)
    → IsAux bits r a
    → i + 1 ≡ r.next_version
    → ((v : ℕ) → v < i → roots r v ≡ none)
    → r.next_version ≤ r.version_lower_bound + fuel
    → (a' : Aux) × (update_root_offset fuel a i invalid_offset ≡ ok a')
      × (max_version a'.main.root_offsets ≡ invalid_block_num)
      × (max_version a'.copy.root_offsets ≡ i)
      × ((v : ℕ) → roots a'.copy.root_offsets v ≡ none)
unfolding update_root_offset
update_root_offset_lem bits fuel i r a h last gone enough =
    let r' = assign r i invalid_offset in
    let next = assign_next r i invalid_offset in
    let (ring, same) =
      assign_lem bits r i invalid_offset h.ring (omega (arith, last))
        (omega (arith, last, h.inside, h.ring.holds, one-le-pow bits 2 (omega arith))) in
    let greatest : max_version r' ≡ i =
      max_version-suc r' (rw next (omega (arith, last))) ring.fits
      ∙ rw next (omega (arith, last)) in
    let empty : max_version (reset_all r' 0) ≡ invalid_block_num =
      unfold max_version reset_all in refl in
    let first = only_version_run bits fuel i r a h last gone enough in
    let first' : Aux = record {
      main = record { root_offsets = reset_all r' 0; history_length = a.main.history_length };
      copy = record { root_offsets = r'; history_length = a.copy.history_length };
    } in
    let other : (i == invalid_block_num) ≡ false = ground (arith, last, h.ring.fits) in
    let second : only_version fuel first' i invalid_offset ≡ ok false =
      unfold only_version db_history_max_version in rw (empty, other) refl in
    (
      first',
      rw (h.in_main, first, empty, h.in_copy, second) refl,
      empty,
      greatest,
      λ v. same v ∙ elim (Bool-cases (v == i)) [
        | inl e ↦ rw e refl
        | inr e ↦ elim (Bool-cases (ltb v i)) [
          | inl f ↦ rw e (gone v (ltb→lt _ _ f))
          | inr f ↦ rw e (roots_behind r v (ground (arith, e, f, last)))
        ]
      ],
    )
