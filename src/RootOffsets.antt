-- ===== src/RootOffsets.antt =====
-- depend/monad/category/mpt/trie.hpp, `root_offsets_delegator`: the ring in which the database keeps the
-- offset of the root of each version. The accesses are those of one thread.
pub mod Window
pub mod Scan
pub mod Laws
pub mod History
pub mod Rewind
pub mod Runs
use nomad_mpt.Prelude.{
  ℕ, zero, suc, ◌+◌, ◌-◌, ◌%◌, ◌^◌, ◌==◌, leb, ltb, if◌then◌else◌, not, Bool, ◌&&◌, List, length,
  get_or, set, replicate,
}
use nomad_mpt.Result.{Result, ok, check, ◌>>◌}

-- `chunk_offset_t` of async/config.hpp
pub record ChunkOffset : Type 0 where
  pub offset : ℕ
  pub id : ℕ
  pub spare : ℕ
  pub bits_format : ℕ

-- `INVALID_OFFSET`, with all bits one
abbrev pub invalid_offset : ChunkOffset
invalid_offset = record {
  offset = 2 ^ 28 - 1;
  id = 2 ^ 20 - 1;
  spare = 2 ^ 15 - 1;
  bits_format = 1;
}

-- `operator==`, which ignores the spare bits
abbrev pub same_chunk : ChunkOffset → ChunkOffset → Bool
same_chunk a b = a.offset == b.offset && a.id == b.id

abbrev pub is_invalid : ChunkOffset → Bool
is_invalid o = same_chunk o invalid_offset

abbrev pub invalid_block_num : ℕ
invalid_block_num = 2 ^ 64 - 1

-- `root_offsets_ring_t` and the span of its entries
pub record RootOffsets : Type 0 where
  pub version_lower_bound : ℕ
  pub next_version : ℕ
  pub chunks : List ChunkOffset

abbrev pub capacity : RootOffsets → ℕ
capacity r = length r.chunks

-- `operator[]`. The capacity is a power of two, so the mask is a remainder.
unfoldable pub root_at : RootOffsets → ℕ → ChunkOffset
root_at r i = get_or r.chunks (i % capacity r) invalid_offset

-- The greatest version, or `invalid_block_num` where there is none: `next_version_ - 1` wraps.
unfoldable pub max_version : RootOffsets → ℕ
max_version r = (r.next_version + (2 ^ 64 - 1)) % 2 ^ 64

-- The loop of `update_version_lower_bound_`, for as many rounds as there are versions below the greatest.
unfoldable pub scan : ℕ → RootOffsets → ℕ → ℕ
scan zero r idx = idx
scan (suc rounds) r idx =
    let further = scan rounds r (suc idx) in
    if ltb idx (max_version r) && is_invalid (root_at r idx) then further else idx

abbrev pub with_lower : RootOffsets → ℕ → RootOffsets
with_lower r idx = record {
  version_lower_bound = idx;
  next_version = r.next_version;
  chunks = r.chunks;
}

unfoldable pub update_version_lower_bound : RootOffsets → ℕ → RootOffsets
update_version_lower_bound r lower_bound =
    let start =
      if ltb lower_bound r.version_lower_bound then lower_bound else r.version_lower_bound in
    let idx = scan (max_version r - start) r start in
    if max_version r == invalid_block_num
    then r
    else if not (idx == r.version_lower_bound)
    then with_lower r idx
    else r

-- The store into the entry of a version.
abbrev pub put : RootOffsets → ℕ → ChunkOffset → RootOffsets
put r i o = record {
  version_lower_bound = r.version_lower_bound;
  next_version = r.next_version;
  chunks = set r.chunks (i % capacity r) o;
}

abbrev pub with_next : RootOffsets → ℕ → RootOffsets
with_next r n = record {
  version_lower_bound = r.version_lower_bound;
  next_version = n;
  chunks = r.chunks;
}

unfoldable pub push : RootOffsets → ChunkOffset → Result RootOffsets
push r o =
    let next_wp = (r.next_version + 1) % 2 ^ 64 in
    let stored = with_next (put r r.next_version o) next_wp in
    check (not (next_wp == 0))
    >> ok (if not (is_invalid o) then update_version_lower_bound stored (2 ^ 64 - 1) else stored)

unfoldable pub assign : RootOffsets → ℕ → ChunkOffset → RootOffsets
assign r i o = update_version_lower_bound (put r i o) (if not (is_invalid o) then i else 2 ^ 64 - 1)

unfoldable pub reset_all : RootOffsets → ℕ → RootOffsets
reset_all r version = record {
  version_lower_bound = version;
  next_version = version;
  chunks = replicate (capacity r) invalid_offset;
}

-- The loop of `rewind_to_version` over the versions from `i`, for the rounds that are left.
unfoldable pub clear_from : ℕ → RootOffsets → ℕ → RootOffsets
clear_from zero r i = r
clear_from (suc rounds) r i =
    let rest = clear_from rounds (assign r i invalid_offset) (suc i) in
    if leb i (max_version r) then rest else r

unfoldable pub rewind_to_version : RootOffsets → ℕ → Result RootOffsets
rewind_to_version r version =
    let cleared = clear_from (max_version r - version) r (version + 1) in
    let lowered =
      if ltb version cleared.version_lower_bound then with_lower cleared version else cleared in
    check (ltb version (max_version r))
    >> (check (leb (max_version r - version) (capacity r))
        >> ok (update_version_lower_bound (with_next lowered (version + 1)) (2 ^ 64 - 1)))
