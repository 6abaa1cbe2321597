-- ===== src/Offset.antt =====
-- depend/monad/category/mpt/util.hpp, mpt/node.hpp, async/util.hpp: offsets into the storage as words
-- with bit fields, their compact form, the alignment of numbers, and the number of disk pages in
-- fifteen bits.
pub mod Order
pub mod Align
pub mod Pages
pub mod Runs
use nomad_mpt.Prelude.{
  ℕ, suc, ◌+◌, ◌-◌, ◌*◌, ◌/◌, ◌%◌, ◌^◌, ◌==◌, leb, ltb, if◌then◌else◌, not, Bool, ◌&&◌, compare,
  Ordering,
}
use nomad_mpt.Result.{Result, ok, ◌>>=◌, check, ◌>>◌}
use nomad_mpt.Rlp.{countl_zero}

-- The bit fields of `virtual_chunk_offset_t`, from the lowest.
pub record VirtualOffset : Type 0 where
  pub offset : ℕ
  pub count : ℕ
  pub spare : ℕ
  pub is_in_fast_list : ℕ

abbrev pub max_offset : ℕ
max_offset = 2 ^ 28 - 1

abbrev pub max_count : ℕ
max_count = 2 ^ 20 - 1

abbrev pub max_spare : ℕ
max_spare = 2 ^ 15 - 1

-- The constructor. A mask of low ones is a remainder.
unfoldable pub virtual_offset : ℕ → ℕ → ℕ → ℕ → Result VirtualOffset
virtual_offset count_ offset_ is_fast_list_ spare_ =
    check (leb spare_ max_spare)
    >> (check (leb count_ max_count)
        >> (check (leb offset_ max_offset)
            >> (check (leb is_fast_list_ 1)
                >> ok (record {
                  offset = offset_ % 2 ^ 28;
                  count = count_ % 2 ^ 20;
                  spare = spare_ % 2 ^ 15;
                  is_in_fast_list = is_fast_list_ % 2;
                }))))

-- `operator==`, which ignores the spare bits
unfoldable pub same_offset : VirtualOffset → VirtualOffset → Bool
same_offset v o =
    v.is_in_fast_list == o.is_in_fast_list && (v.count == o.count && v.offset == o.offset)

abbrev then_compare : Ordering → Ordering → Ordering
then_compare Ordering.lt later = Ordering.lt
then_compare Ordering.eq later = later
then_compare Ordering.gt later = Ordering.gt

-- `operator<=>` of the tuples
unfoldable pub compare_offset : VirtualOffset → VirtualOffset → Ordering
compare_offset v o =
    then_compare (compare v.is_in_fast_list o.is_in_fast_list)
      (then_compare (compare v.count o.count) (compare v.offset o.offset))

-- The word with the spare bits and the list cleared.
unfoldable pub raw : VirtualOffset → ℕ
raw v = v.offset + v.count * 2 ^ 28

-- The word with the spare bits cleared.
unfoldable pub hasher_raw : VirtualOffset → ℕ
hasher_raw v = v.offset + v.count * 2 ^ 28 + v.is_in_fast_list * 2 ^ 63

-- `compact_virtual_chunk_offset_t`: 32 bits
unfoldable pub compact_offset : VirtualOffset → ℕ
compact_offset v = raw v / 2 ^ 16 % 2 ^ 32

unfoldable pub get_count : ℕ → ℕ
get_count v_ = v_ / 2 ^ (32 - 20)

-- `operator-` and `operator+=` on the 32 bits
unfoldable pub compact_minus : ℕ → ℕ → ℕ
compact_minus a b = (a + 2 ^ 32 - b) % 2 ^ 32

unfoldable pub compact_add : ℕ → ℕ → ℕ
compact_add a b = (a + b) % 2 ^ 32

-- `round_up_align` and `round_down_align` of a number of `w` bits: `& ~mask` clears the low bits.
abbrev pub clear_low : ℕ → ℕ → ℕ
clear_low bits x = x - x % 2 ^ bits

unfoldable pub round_up_align : ℕ → ℕ → ℕ → ℕ
round_up_align w bits x = clear_low bits ((x + (2 ^ bits - 1)) % 2 ^ w)

unfoldable pub round_down_align : ℕ → ℕ → ℕ
round_down_align bits x = clear_low bits x

-- `node_disk_pages_spare_15`: a count of ten bits and a shift of five.
pub record PagesSpare : Type 0 where
  pub count : ℕ
  pub shift : ℕ

unfoldable pub to_pages : PagesSpare → ℕ
to_pages v = v.count * 2 ^ v.shift % 2 ^ 32

-- The count and the shift before they are stored.
unfoldable pub pages_fields : ℕ → PagesSpare
pages_fields pages =
    let exp = pages / 2 ^ 10 in
    let shift = 32 - countl_zero 32 exp in
    let count = pages / 2 ^ shift + (if not (pages % 2 ^ shift == 0) then 1 else 0) in
    if ltb 1023 count
    then record { count = count / 2; shift = shift + 1 }
    else record { count = count; shift = shift }

-- The constructor from a number of pages.
unfoldable pub disk_pages : ℕ → Result PagesSpare
disk_pages pages =
    let v = pages_fields pages in
    check (leb v.count 1023)
    >> (check (leb v.shift 31)
        >> (let stored : PagesSpare = record {
          count = v.count % 2 ^ 10;
          shift = v.shift % 2 ^ 5;
        } in
            check (leb pages (to_pages stored)) >> ok stored))
