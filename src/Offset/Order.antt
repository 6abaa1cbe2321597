-- ===== src/Offset/Order.antt =====
-- The order of offsets is the order of the words, and the compact form keeps it.
use nomad_mpt.Prelude.{◌/◌, ◌%◌, ◌^◌, ◌≤◌, ◌<◌, ◌≡◌, ◌≢◌, arith, compare, Ordering}
use nomad_mpt.Offset.{VirtualOffset, compare_offset, raw, hasher_raw, compact_offset, get_count}

-- The fields fit into their bits.
pub record IsOffset (v : VirtualOffset) : Type 0 where
  pub offset_fits : v.offset < 2 ^ 28
  pub count_fits : v.count < 2 ^ 20
  pub list_fits : v.is_in_fast_list < 2

-- Offsets whose fields fit compare as their words do, the spare bits cleared: first by the list, then by the
-- chunk, then by the offset into the chunk.
pub compare_offset-hasher_raw :
    (v o : VirtualOffset)
    → IsOffset v
    → IsOffset o
    → compare_offset v o ≡ compare (hasher_raw v) (hasher_raw o)
unfolding compare_offset hasher_raw
compare_offset-hasher_raw v o h k = ground arith

-- The compact form of an offset whose fields fit: a 32-bit number with the chunk and the upper bits of the
-- offset into it; between offsets of one list it keeps the order.
pub compact_offset_lem :
    (v o : VirtualOffset)
    → IsOffset v
    → IsOffset o
    → (compact_offset v < 2 ^ 32)
      × (get_count (compact_offset v) ≡ v.count)
      × (compact_offset v % 2 ^ 12 ≡ v.offset / 2 ^ 16)
      × (v.is_in_fast_list ≡ o.is_in_fast_list
          → compare_offset v o ≢ Ordering.gt
          → compact_offset v ≤ compact_offset o)
unfolding compare_offset raw compact_offset get_count
compact_offset_lem v o h k = (omega arith, omega arith, omega arith, λ same ordered. ground arith)
