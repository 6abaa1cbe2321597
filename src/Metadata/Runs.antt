-- ===== src/Metadata/Runs.antt =====
-- Runs of two copies with rings of four entries.
use nomad_mpt.Prelude.{
  ℕ, ◌≡◌, refl, arith, ◌==◌, leb, ltb, if◌then◌else◌, none, ◌∷◌, [], false, Bool-cases, inl, inr,
}
use nomad_mpt.Result.{ok, aborted, ◌>>=◌}
use nomad_mpt.RootOffsets.{
  ChunkOffset, invalid_offset, invalid_block_num, RootOffsets, root_at, max_version, push,
  reset_all,
}
use nomad_mpt.RootOffsets.Window.{valid, roots, IsRing}
use nomad_mpt.RootOffsets.History.{roots_below}
use nomad_mpt.Metadata.{
  Aux, db_history_range_lower_bound, db_history_max_version, first_valid,
  db_history_min_valid_version, get_root_offset_at_version, version_is_valid_ondisk,
  append_root_offset, update_root_offset, push_until, fast_forward_ring, fast_forward_next_version,
  update_history_length_metadata, clear_root_offsets_up_to_and_including,
}
use nomad_mpt.Metadata.Copies.{IsAux, clear_root_offsets_lem}
use nomad_mpt.Metadata.Last.{update_root_offset_lem}
use nomad_mpt.Metadata.Forward.{fast_forward-append}

abbrev root : ℕ → ChunkOffset
root n = record { offset = n; id = 2; spare = 1; bits_format = 1 }

-- The versions 5 to 7; version 6 is gone.
abbrev some_versions : RootOffsets
some_versions = record {
  version_lower_bound = 5;
  next_version = 8;
  chunks = invalid_offset ∷ root 50 ∷ invalid_offset ∷ root 70 ∷ [];
}

-- The version 7
abbrev one_version : RootOffsets
one_version = record {
  version_lower_bound = 7;
  next_version = 8;
  chunks = invalid_offset ∷ invalid_offset ∷ invalid_offset ∷ root 70 ∷ [];
}

abbrev both : RootOffsets → Aux
both r = record {
  main = record { root_offsets = r; history_length = 4 };
  copy = record { root_offsets = r; history_length = 4 };
}

some_versions-IsAux : IsAux 2 some_versions (both some_versions)
some_versions-IsAux = record {
  in_main = refl;
  in_copy = refl;
  ring = record {
    size = refl;
    fits = omega arith;
    ordered = omega arith;
    holds = omega arith;
    outside = λ v from upto. let only : v ≡ 8 = omega arith in rw only (unfold root_at in refl);
  };
  inside = omega arith;
  history = omega arith;
}

one_version-IsAux : IsAux 2 one_version (both one_version)
one_version-IsAux = record {
  in_main = refl;
  in_copy = refl;
  ring = record {
    size = refl;
    fits = omega arith;
    ordered = omega arith;
    holds = omega arith;
    outside = λ v from upto. elim (Bool-cases (ltb v 9)) [
      | inl e ↦ let only : v ≡ 8 = ground arith in rw only (unfold root_at in refl)
      | inr e ↦ elim (Bool-cases (ltb v 10)) [
        | inl f ↦ let only : v ≡ 9 = ground arith in rw only (unfold root_at in refl)
        | inr f ↦ let only : v ≡ 10 = ground arith in rw only (unfold root_at in refl)
      ]
    ];
  };
  inside = omega arith;
  history = omega arith;
}

clear_root_offsets_lem_example :
    (r' : RootOffsets) × (a' : Aux) × (clear_root_offsets_up_to_and_including 4 3
        (both some_versions)
        6
      ≡ ok a')
    × IsAux 2 r' a'
    × (r'.next_version ≡ 8)
    × ((v : ℕ) → roots r' v ≡ (if leb v 6 then none else roots some_versions v))
clear_root_offsets_lem_example =
    clear_root_offsets_lem 2 4 3 6 some_versions (both some_versions) some_versions-IsAux
      (omega arith) (omega arith) (omega arith)

update_root_offset_lem_example :
    (a' : Aux) × (update_root_offset 1 (both one_version) 7 invalid_offset ≡ ok a')
    × (max_version a'.main.root_offsets ≡ invalid_block_num)
    × (max_version a'.copy.root_offsets ≡ 7)
    × ((v : ℕ) → roots a'.copy.root_offsets v ≡ none)
update_root_offset_lem_example =
    update_root_offset_lem 2 1 7 one_version (both one_version) one_version-IsAux refl
      (λ v less. roots_below one_version v less) (omega arith)

-- Version 9 behind the only version 7; version 8 is skipped.
fast_forward-append_example :
    (r' : RootOffsets) × (a' : Aux) × ((fast_forward_next_version (both one_version) 9 >>= λ b.
    append_root_offset b (root 90))
      ≡ ok a')
    × (a'.main.root_offsets ≡ r')
    × (a'.copy.root_offsets ≡ r')
    × IsRing 2 r'
    × (max_version r' ≡ 9)
    × ((v : ℕ) → roots r' v ≡ (if v == 9 then valid (root 90) else roots one_version v))
fast_forward-append_example =
    fast_forward-append 2 9 one_version (both one_version) (root 90) one_version-IsAux (omega arith)
      (omega arith) (omega arith)

min_valid_version-some : db_history_min_valid_version 4 (both some_versions) ≡ ok 5
unfolding db_history_min_valid_version db_history_range_lower_bound db_history_max_version
    first_valid root_at max_version
min_valid_version-some = refl

version_is_valid_ondisk-gone : version_is_valid_ondisk (both some_versions) 6 ≡ ok false
unfolding version_is_valid_ondisk get_root_offset_at_version db_history_range_lower_bound
    db_history_max_version root_at max_version
version_is_valid_ondisk-gone = refl

-- A history longer than the ring is refused.
update_history_length_too_long : update_history_length_metadata (both one_version) 5 ≡ aborted
unfolding update_history_length_metadata
update_history_length_too_long = refl

-- A version that is not ahead is refused.
fast_forward_back : fast_forward_next_version (both some_versions) 7 ≡ aborted
unfolding fast_forward_next_version fast_forward_ring max_version push_until push reset_all
fast_forward_back = refl
