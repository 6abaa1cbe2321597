-- ===== src/Offset/Runs.antt =====
-- Runs on small inputs.
use nomad_mpt.Prelude.{
  ◌+◌, ◌-◌, ◌*◌, ◌/◌, ◌%◌, ◌^◌, ◌≤◌, ◌<◌, ◌≡◌, ◌≢◌, refl, arith, compare, Ordering, true,
}
use nomad_mpt.Result.{ok, aborted}
use nomad_mpt.Offset.{
  VirtualOffset, virtual_offset, same_offset, compare_offset, raw, hasher_raw, compact_offset,
  get_count, compact_minus, compact_add, round_up_align, round_down_align, PagesSpare, to_pages,
  pages_fields, disk_pages,
}
use nomad_mpt.Offset.Order.{IsOffset, compare_offset-hasher_raw, compact_offset_lem}
use nomad_mpt.Offset.Align.{round_align_lem}
use nomad_mpt.Offset.Pages.{disk_pages_lem}

abbrev early : VirtualOffset
early = record { offset = 131072; count = 7; spare = 3; is_in_fast_list = 0 }

abbrev late : VirtualOffset
late = record { offset = 65536; count = 8; spare = 0; is_in_fast_list = 0 }

early_fits : IsOffset early
early_fits = record { offset_fits = omega arith; count_fits = omega arith; list_fits = omega arith }

late_fits : IsOffset late
late_fits = record { offset_fits = omega arith; count_fits = omega arith; list_fits = omega arith }

compare_offset-hasher_raw_example :
    compare_offset early late ≡ compare (hasher_raw early) (hasher_raw late)
compare_offset-hasher_raw_example = compare_offset-hasher_raw early late early_fits late_fits

compact_offset_lem_example :
    (compact_offset early < 2 ^ 32)
    × (get_count (compact_offset early) ≡ 7)
    × (compact_offset early % 2 ^ 12 ≡ 131072 / 2 ^ 16)
    × (early.is_in_fast_list ≡ late.is_in_fast_list
        → compare_offset early late ≢ Ordering.gt
        → compact_offset early ≤ compact_offset late)
compact_offset_lem_example = compact_offset_lem early late early_fits late_fits

round_align_lem_example :
    (1000 ≤ round_up_align 32 9 1000)
    × (round_up_align 32 9 1000 < 1000 + 2 ^ 9)
    × (round_up_align 32 9 1000 % 2 ^ 9 ≡ 0)
    × (round_down_align 9 1000 ≤ 1000)
    × (1000 < round_down_align 9 1000 + 2 ^ 9)
    × (round_down_align 9 1000 % 2 ^ 9 ≡ 0)
round_align_lem_example = round_align_lem 32 9 1000 (omega arith)

disk_pages_lem_example :
    (v : PagesSpare) × (disk_pages 2047 ≡ ok v)
    × (2047 ≤ to_pages v)
    × (512 * (to_pages v - 2047) ≤ 2047)
disk_pages_lem_example = disk_pages_lem 2047 (omega arith)

-- 1024 pages of two each are one page of 512 with a longer shift.
disk_pages_2047 : disk_pages 2047 ≡ ok (record { count = 512; shift = 2 })
unfolding disk_pages pages_fields nomad_mpt.Rlp.countl_zero to_pages
disk_pages_2047 = refl

-- The greatest number is rounded up to 2 ^ 32, which does not fit.
disk_pages_greatest : disk_pages (2 ^ 32 - 1) ≡ aborted
unfolding disk_pages pages_fields nomad_mpt.Rlp.countl_zero to_pages
disk_pages_greatest = refl

raw-early : raw early ≡ 1879179264
unfolding raw
raw-early = refl

virtual_offset_too_large : virtual_offset (2 ^ 20) 0 1 0 ≡ aborted
unfolding virtual_offset
virtual_offset_too_large = refl

same_offset_spare :
    same_offset early (record { offset = 131072; count = 7; spare = 9; is_in_fast_list = 0 }) ≡ true
unfolding same_offset
same_offset_spare = refl

compact_minus_wraps : compact_add (compact_minus 3 5) 5 ≡ 3
unfolding compact_minus compact_add
compact_minus_wraps = refl
