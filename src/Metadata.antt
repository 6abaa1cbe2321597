-- ===== src/Metadata.antt =====
-- depend/monad/category/mpt/update_aux.cpp: the two copies of the metadata of the database that is on
-- disk, with the operations on the versions.
pub mod Copies
pub mod Last
pub mod Forward
pub mod Runs
use nomad_mpt.Prelude.{
  ℕ, zero, suc, ◌+◌, ◌-◌, ◌%◌, ◌^◌, ◌==◌, leb, ltb, if◌then◌else◌, not, Bool, ◌&&◌, ◌||◌, true,
  false,
}
use nomad_mpt.Result.{Result, ok, aborted, stuck, ◌>>=◌, check, ◌>>◌}
use nomad_mpt.RootOffsets.{
  ChunkOffset, invalid_offset, is_invalid, invalid_block_num, RootOffsets, capacity, root_at,
  max_version, push, assign, reset_all,
}

-- The parts of `db_metadata` that the operations on versions use.
pub record Metadata : Type 0 where
  pub root_offsets : RootOffsets
  pub history_length : ℕ

-- `db_metadata_[0].main` and `db_metadata_[1].main`
pub record Aux : Type 0 where
  pub main : Metadata
  pub copy : Metadata

abbrev with_main : Aux → Metadata → Aux
with_main a m = record { main = m; copy = a.copy }

abbrev with_copy : Aux → Metadata → Aux
with_copy a m = record { main = a.main; copy = m }

abbrev with_root_offsets : Metadata → RootOffsets → Metadata
with_root_offsets m r = record { root_offsets = r; history_length = m.history_length }

unfoldable pub db_history_max_version : Aux → ℕ
db_history_max_version a = max_version a.main.root_offsets

unfoldable pub db_history_range_lower_bound : Aux → Result ℕ
db_history_range_lower_bound a =
    let greatest = db_history_max_version a in
    let history_range_min =
      if leb a.main.history_length greatest then greatest - a.main.history_length + 1 else 0 in
    let ro_version_lower_bound = a.main.root_offsets.version_lower_bound in
    if greatest == invalid_block_num
    then ok invalid_block_num
    else check (leb history_range_min ro_version_lower_bound) >> ok ro_version_lower_bound

-- The loop of `db_history_min_valid_version`, which wraps past the greatest number.
unfoldable pub first_valid : ℕ → RootOffsets → ℕ → Result ℕ
first_valid zero offsets min_version = stuck
first_valid (suc fuel) offsets min_version =
    let further = first_valid fuel offsets ((min_version + 1) % 2 ^ 64) in
    if not (min_version == max_version offsets) && is_invalid (root_at offsets min_version)
    then further
    else ok min_version

unfoldable pub db_history_min_valid_version : ℕ → Aux → Result ℕ
db_history_min_valid_version fuel a = db_history_range_lower_bound a >>= λ min_version.
    first_valid fuel a.main.root_offsets min_version

unfoldable pub get_root_offset_at_version : Aux → ℕ → Result ChunkOffset
get_root_offset_at_version a version =
    if leb version (db_history_max_version a)
    then (db_history_range_lower_bound a >>= λ lower.
        ok (if leb lower version then root_at a.main.root_offsets version else invalid_offset))
    else ok invalid_offset

unfoldable pub version_is_valid_ondisk : Aux → ℕ → Result Bool
version_is_valid_ondisk a version =
    get_root_offset_at_version a version >>= λ o. ok (not (is_invalid o))

-- `do_` on the first copy and then on the second; each round sees what the first has done.
unfoldable pub append_root_offset : Aux → ChunkOffset → Result Aux
append_root_offset a o = push a.main.root_offsets o >>= λ first.
    push a.copy.root_offsets o >>= λ second.
    ok (record { main = with_root_offsets a.main first; copy = with_root_offsets a.copy second })

-- Whether the version is the only valid one. The functions that tell look at the first copy.
unfoldable pub only_version : ℕ → Aux → ℕ → ChunkOffset → Result Bool
only_version fuel a i o =
    if is_invalid o && i == db_history_max_version a
    then (db_history_min_valid_version fuel a >>= λ least. ok (i == least))
    else ok false

abbrev reset_if : Bool → RootOffsets → Result RootOffsets
reset_if false r = ok r
reset_if true r = check (max_version (reset_all r 0) == invalid_block_num) >> ok (reset_all r 0)

unfoldable pub update_root_offset : ℕ → Aux → ℕ → ChunkOffset → Result Aux
update_root_offset fuel a i o =
    let first = assign a.main.root_offsets i o in
    let assigned = with_main a (with_root_offsets a.main first) in
    only_version fuel assigned i o >>= λ only. reset_if only first >>= λ first'.
    (let a' = with_main a (with_root_offsets a.main first') in
      let second = assign a'.copy.root_offsets i o in
      let assigned' = with_copy a' (with_root_offsets a'.copy second) in
      only_version fuel assigned' i o >>= λ only'.
      reset_if only' second >>= λ second'. ok (with_copy a' (with_root_offsets a'.copy second')))

-- The loop of `fast_forward_next_version`, for the rounds that are left.
unfoldable pub push_until : ℕ → RootOffsets → ℕ → Result RootOffsets
push_until zero ro new_version = ok ro
push_until (suc rounds) ro new_version =
    if ltb (max_version ro + 1) new_version
    then (push ro invalid_offset >>= λ ro'. push_until rounds ro' new_version)
    else ok ro

unfoldable pub fast_forward_ring : RootOffsets → ℕ → Result RootOffsets
fast_forward_ring ro new_version =
    let curr_version = max_version ro in
    check (curr_version == invalid_block_num || ltb curr_version new_version)
    >> (if curr_version == invalid_block_num || leb (capacity ro) (new_version - curr_version)
        then ok (reset_all ro new_version)
        else push_until (new_version - curr_version) ro new_version)

unfoldable pub fast_forward_next_version : Aux → ℕ → Result Aux
fast_forward_next_version a new_version =
    fast_forward_ring a.main.root_offsets new_version >>= λ first.
    fast_forward_ring a.copy.root_offsets new_version >>= λ second.
    ok (record { main = with_root_offsets a.main first; copy = with_root_offsets a.copy second })

abbrev set_history_length : Metadata → ℕ → Result Metadata
set_history_length m history_len =
    check (ltb 0 history_len && leb history_len (capacity m.root_offsets))
    >> ok (record { root_offsets = m.root_offsets; history_length = history_len })

unfoldable pub update_history_length_metadata : Aux → ℕ → Result Aux
update_history_length_metadata a history_len = set_history_length a.main history_len >>= λ first.
    set_history_length a.copy history_len >>= λ second. ok (record { main = first; copy = second })

-- The loop over the versions from the lower bound.
unfoldable pub clear_root_offsets_up_to_and_including : ℕ → ℕ → Aux → ℕ → Result Aux
clear_root_offsets_up_to_and_including scan_fuel zero a version = stuck
clear_root_offsets_up_to_and_including scan_fuel (suc fuel) a version =
    db_history_range_lower_bound a >>= λ v.
    if not (v == invalid_block_num) && leb v version
    then (update_root_offset scan_fuel a v invalid_offset >>= λ a'.
        clear_root_offsets_up_to_and_including scan_fuel fuel a' version)
    else ok a
