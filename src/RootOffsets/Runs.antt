-- ===== src/RootOffsets/Runs.antt =====
-- Runs of a ring with four entries.
use nomad_mpt.Prelude.{ℕ, ◌≡◌, refl, arith, ◌==◌, leb, if◌then◌else◌, none, ◌∷◌, []}
use nomad_mpt.Result.{ok, aborted}
use nomad_mpt.RootOffsets.{
  ChunkOffset, invalid_offset, RootOffsets, root_at, max_version, scan, update_version_lower_bound,
  push, assign, reset_all, clear_from, rewind_to_version,
}
use nomad_mpt.RootOffsets.Window.{valid, roots, IsRing}
use nomad_mpt.RootOffsets.History.{push_lem, assign_lem}
use nomad_mpt.RootOffsets.Rewind.{reset_all_lem, rewind_to_version_lem}

abbrev at : ℕ → ChunkOffset
at n = record { offset = n; id = 1; spare = 0; bits_format = 1 }

-- The versions 5 to 7; version 6 is gone.
abbrev three : RootOffsets
three = record {
  version_lower_bound = 5;
  next_version = 8;
  chunks = invalid_offset ∷ at 50 ∷ invalid_offset ∷ at 70 ∷ [];
}

three-IsRing : IsRing 2 three
three-IsRing = record {
  size = refl;
  fits = omega arith;
  ordered = omega arith;
  holds = omega arith;
  outside = λ v from upto. let only : v ≡ 8 = omega arith in rw only (unfold root_at in refl);
}

push_lem_example :
    (r' : RootOffsets) × (push three (at 80) ≡ ok r')
    × IsRing 2 r'
    × (r'.next_version ≡ 9)
    × ((v : ℕ) → roots r' v ≡ (if v == 8 then valid (at 80) else roots three v))
push_lem_example = push_lem 2 three (at 80) three-IsRing (omega arith) (omega arith)

-- A version before the lower bound
assign_lem_example :
    IsRing 2 (assign three 4 (at 40))
    × ((v : ℕ)
        → roots (assign three 4 (at 40)) v ≡ (if v == 4 then valid (at 40) else roots three v))
assign_lem_example = assign_lem 2 three 4 (at 40) three-IsRing (omega arith) (omega arith)

reset_all_lem_example :
    ((v : ℕ) → roots (reset_all three 9) v ≡ none)
    × (max_version (reset_all three 9) ≡ 8)
    × ((r' : RootOffsets) × (push (reset_all three 9) (at 90) ≡ ok r')
        × IsRing 2 r'
        × (max_version r' ≡ 9)
        × ((v : ℕ) → roots r' v ≡ (if v == 9 then valid (at 90) else none)))
reset_all_lem_example = reset_all_lem 2 three 9 (at 90) refl (omega arith)

rewind_to_version_lem_example :
    (r' : RootOffsets) × (rewind_to_version three 5 ≡ ok r')
    × IsRing 2 r'
    × (max_version r' ≡ 5)
    × ((v : ℕ) → roots r' v ≡ (if leb v 5 then roots three v else none))
rewind_to_version_lem_example =
    rewind_to_version_lem 2 three 5 three-IsRing (omega arith) (omega arith)

-- Without version 5 the lower bound moves past version 6, which is gone.
assign-three : assign three 5 invalid_offset ≡ record {
  version_lower_bound = 7;
  next_version = 8;
  chunks = invalid_offset ∷ invalid_offset ∷ invalid_offset ∷ at 70 ∷ [];
}
unfolding assign update_version_lower_bound scan max_version root_at
assign-three = refl

rewind_to_version-three :
    rewind_to_version three 4
    ≡ ok (record {
      version_lower_bound = 4;
      next_version = 5;
      chunks = invalid_offset ∷ invalid_offset ∷ invalid_offset ∷ invalid_offset ∷ [];
    })
unfolding rewind_to_version clear_from assign update_version_lower_bound scan max_version root_at
rewind_to_version-three = refl

rewind_to_version_too_late : rewind_to_version three 7 ≡ aborted
unfolding rewind_to_version clear_from assign update_version_lower_bound scan max_version root_at
rewind_to_version_too_late = refl
