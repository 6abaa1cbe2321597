-- ===== src/Merkle.antt =====
-- depend/monad/category/mpt/compute.cpp, merkle/node_reference.hpp: the pieces of a Merkle
-- commitment in RLP. `keccak256` is a parameter.
pub mod Spec
pub mod Reference
pub mod Children
pub mod Pieces
pub mod Base
pub mod VarLen
pub mod Branch
pub mod Compute
pub mod Root
pub mod RootHash
pub mod Commit
pub mod Runs
use nomad_mpt.Prelude.{
  ℕ, zero, suc, ◌+◌, ◌-◌, ◌==◌, ltb, leb, if◌then◌else◌, not, Bool, ◌||◌, Option, none, some, List,
  [], ◌∷◌, ◌++◌, length, replicate,
}
use nomad_mpt.Result.{Result, ok, stuck, aborted, ◌>>=◌, check, ◌>>◌}
use nomad_mpt.Nibbles.{NibblesView, data_size}
use nomad_mpt.CompactEncode.{compact_encode}
use nomad_mpt.Rlp.{
  Span, assign, store, subspan, string_length, encode_string, list_length, encode_list,
}

abbrev pub Keccak : Type 0
Keccak = List ℕ → List ℕ

-- A child's entry in its parent: the branch and the data.
pub record ChildEntry : Type 0 where
  pub branch : ℕ
  pub hash : List ℕ

-- What a commitment reads of a node: its path, its value, the data of its children in the order of
-- the branches of `mask`, and its own data.
pub record TrieNode : Type 0 where
  pub path : NibblesView
  pub value : Option (List ℕ)
  pub entries : List ChildEntry
  pub intermediate : List ℕ

-- The branch 255 marks an entry that is not valid.
pub record ChildData : Type 0 where
  pub branch : ℕ
  pub hash : List ℕ
  pub ptr : TrieNode

abbrev pub invalid_branch : ℕ
invalid_branch = 255

unfoldable pub is_valid : ChildData → Bool
is_valid c = not (c.branch == invalid_branch)

-- `node->child_data_view(to_child_index(i))` where the mask has the bit, `none` where it has not
unfoldable pub child_data_view : ℕ → List ChildEntry → Option (List ℕ)
child_data_view i [] = none
child_data_view i (c ∷ cs) = if c.branch == i then some c.hash else child_data_view i cs

unfoldable pub to_node_reference : Keccak → List ℕ → List ℕ
to_node_reference keccak256 rlp = if leb 32 (length rlp) then keccak256 rlp else rlp

-- A buffer of `n` bytes, and all its bytes.
abbrev pub buffer : ℕ → Span
buffer n = record { passed = []; left = replicate n 0 }

abbrev pub whole : Span → List ℕ
whole d = d.passed ++ d.left

abbrev pub asserted : Option (List ℕ) → Result (List ℕ)
asserted none = aborted
asserted (some d) = ok d

-- `memcpy` of bytes that are encoded already, and the span behind them
unfoldable pub copy_raw : Span → List ℕ → Result Span
copy_raw d bytes = store bytes d >>= subspan (length bytes)

unfoldable pub encode_two_pieces : Keccak → NibblesView → List ℕ → Bool → Result (List ℕ)
encode_two_pieces keccak256 path second has_value =
    check (leb (data_size path) 32)
    >> (asserted (compact_encode (replicate 33 0) path has_value) >>= λ first.
        check (leb (length first) 33)
        >> (let need_encode_second = has_value || leb 32 (length second) in
            let concat_len =
              string_length first
              + (if need_encode_second then string_length second else length second) in
            encode_string (buffer concat_len) first
            >>= (λ result.
                if need_encode_second then encode_string result second else copy_raw result second)
            >>= (λ result.
                check (length result.passed == concat_len)
                >> encode_list (buffer (list_length concat_len)) (whole result))
            >>= (λ rlp. ok (to_node_reference keccak256 (whole rlp)))))

unfoldable pub encode_empty_string : Span → Result Span
encode_empty_string result = assign 0x80 result >>= subspan 1

-- Data of fewer than 32 bytes is RLP already.
unfoldable pub put_child : Span → List ℕ → Result Span
put_child result hash =
    if ltb (length hash) 32 then copy_raw result hash else encode_string result hash

-- `while (child.branch != i)`, with fuel: the index that it reaches and the span.
unfoldable pub fill_until : ℕ → ℕ → ℕ → Span → Result (ℕ × Span)
fill_until zero branch i result = stuck
fill_until (suc fuel) branch i result =
    let rest = (encode_empty_string result >>= fill_until fuel branch (i + 1)) in
    if branch == i then ok (i, result) else rest

-- The loop over the children, from index `i` on.
unfoldable pub put_children : List ChildData → ℕ → Span → Result (ℕ × Span)
put_children [] i result = ok (i, result)
put_children (c ∷ cs) i result =
    let rest =
      (fill_until 17 c.branch i result
        >>= (λ at. put_child at.1 c.hash >>= put_children cs (at.0 + 1))) in
    let skipped = put_children cs i result in if is_valid c then rest else skipped

-- `for (; i < 16; ++i)`, with the rounds that are left.
unfoldable pub fill_rest : ℕ → Span → Result Span
fill_rest zero result = ok result
fill_rest (suc k) result = encode_empty_string result >>= fill_rest k

-- `encode_16_children(std::span<ChildData>, ...)`
unfoldable pub encode_16_children : List ChildData → Span → Result Span
encode_16_children children result =
    put_children children 0 result >>= (λ at. fill_rest (16 - at.0) at.1)

-- The loop over the sixteen bits of the mask, with the rounds that are left.
unfoldable pub put_entries : List ChildEntry → ℕ → ℕ → Span → Result Span
put_entries entries zero i result = ok result
put_entries entries (suc k) i result =
    (elim (child_data_view i entries) [
      | some hash ↦ check (leb (length hash) 32) >> put_child result hash
      | none ↦ encode_empty_string result
    ])
    >>= put_entries entries k (i + 1)

-- `encode_16_children(Node *, ...)`
unfoldable pub encode_16_entries : TrieNode → Span → Result Span
encode_16_entries n result = put_entries n.entries 16 0 result
