-- ===== src/Merkle/RootHash.antt =====
-- MerkleComputeBase::compute_len leaves the hash of the root of the subtrie below a value.
use nomad_mpt.Prelude.{
  ℕ, suc, ◌<◌, ◌≡◌, refl, sym, ap, ◌∙◌, arith, ◌==◌, Bool, Bool-cases, Option-cases, true, false,
  inl, inr, some, List, [], ◌∷◌, length,
}
use nomad_mpt.Result.{ok}
use nomad_mpt.Nibbles.Sequence.{nibbles}
use nomad_mpt.Merkle.{Keccak, ChildEntry, ChildData, is_valid, encode_16_children, buffer}
use nomad_mpt.Merkle.Spec.{Trie, leaf, branch, Subtries, no_subtrie, subtrie, reference, root_hash}
use nomad_mpt.Merkle.Base.{
  compute_len, LeafData, popcount, has_single_bit, find_valid,
  compute_hash_with_extra_nibble_to_state_, branch_reference,
}
use nomad_mpt.Merkle.Reference.{IsHash}
use nomad_mpt.Merkle.Children.{
  entry_of, entries_of, IsAscending, IsAscending-IsSmall, slots_bytes, length-slots_bytes,
  encode_16_children_run,
}
use nomad_mpt.Merkle.Branch.{entries_for, branch_bytes, branch_reference_run}
use nomad_mpt.Merkle.Compute.{denoted}
use nomad_mpt.Merkle.Root.{
  graft, root_of, OnlyChild, keccak_inplace_run, extra_nibble_leaf, extra_nibble_branch,
  no_extension,
}

-- The first valid child is the first entry.
pub find_valid-entries :
    (cs : List ChildData) (e : ChildEntry) (es : List ChildEntry)
    → entries_of cs ≡ e ∷ es
    → (c : ChildData) × (find_valid cs ≡ some c) × (entry_of c ≡ e)
unfolding find_valid
find_valid-entries [] e es same = cc
find_valid-entries (c ∷ cs) e es same = elim (Bool-cases (is_valid c)) [
  | inl valid ↦
      let here : entry_of c ∷ entries_of cs ≡ e ∷ es = rw valid at same in (c, rw valid, cc (here))
  | inr invalid ↦
      let (c', found, eq) = find_valid-entries cs e es (rw invalid at same) in
      (c', rw invalid found, eq)
]

module _ (keccak256 : Keccak) (hash : IsHash keccak256) (leaf_data : LeafData) where
  -- The only child, behind its extra nibble.
  extra_nibble_run :
      (c : ChildData) (t : Trie)
      → c.branch < 16
      → c.hash ≡ reference keccak256 t
      → OnlyChild keccak256 leaf_data t c
      → compute_hash_with_extra_nibble_to_state_ keccak256 leaf_data [] c
        ≡ ok (reference keccak256 (graft c.branch t))
  extra_nibble_run c t small known only = elim (Option-cases c.ptr.value) [
    | inl e ↦
        let is : denoted leaf_data only.below c.ptr ≡ branch (nibbles c.ptr.path) only.below [] =
          unfold denoted in rw e in
        let trie : t ≡ branch (nibbles c.ptr.path) only.below [] = sym only.denotes ∙ is in
        rw trie (
          extra_nibble_branch keccak256 hash leaf_data c only.below small only.commits only.short e
            (known ∙ ap (reference keccak256) trie))
    | inr (v, e) ↦
        let is : denoted leaf_data only.below c.ptr
            ≡ leaf (nibbles c.ptr.path) (leaf_data v c.ptr.intermediate) =
          unfold denoted in rw e in
        let trie : t ≡ leaf (nibbles c.ptr.path) (leaf_data v c.ptr.intermediate) =
          sym only.denotes ∙ is in
        rw trie (
          extra_nibble_leaf keccak256 hash leaf_data c [] v small only.commits.viewed only.short e
            (only.data_fits v e))
  ]

  children_reference :
      (children : List ChildData) (ts : Subtries)
      → IsAscending 0 (entries_of children)
      → entries_of children ≡ entries_for keccak256 ts
      → branch_reference keccak256 (encode_16_children children)
        ≡ ok (reference keccak256 (branch [] ts []))
  children_reference children ts asc same =
      let bytes = slots_bytes (entries_of children) 16 0 in
      let fits =
        length-slots_bytes (entries_of children) 16 0
          (IsAscending-IsSmall 0 (entries_of children) asc) in
      branch_reference_run keccak256 (encode_16_children children) bytes
        (encode_16_children_run children (buffer 532) asc (omega arith)) fits
      ∙ rw
          (same, ← branch_bytes keccak256 hash ts, no_extension keccak256 hash leaf_data [] ts refl)

  compute_len_many :
      (children : List ChildData) (ts : Subtries) (mask : ℕ → Bool) (v : List ℕ)
      → IsAscending 0 (entries_of children)
      → entries_of children ≡ entries_for keccak256 ts
      → has_single_bit mask ≡ false
      → compute_len keccak256 leaf_data [] children mask (some v)
        ≡ ok (32, root_hash keccak256 (branch [] ts []))
  unfolding compute_len
  compute_len_many children ts mask v asc same many = rw (
    many,
    children_reference children ts asc same,
    keccak_inplace_run keccak256 hash leaf_data (branch [] ts []),
  )

  compute_len_one :
      (children : List ChildData) (b : ℕ) (t : Trie) (mask : ℕ → Bool) (v : List ℕ)
      → IsAscending 0 (entries_of children)
      → entries_of children ≡ entries_for keccak256 (subtrie b t no_subtrie)
      → ((c : ChildData) → find_valid children ≡ some c → OnlyChild keccak256 leaf_data t c)
      → has_single_bit mask ≡ true
      → compute_len keccak256 leaf_data [] children mask (some v)
        ≡ ok (32, root_hash keccak256 (graft b t))
  unfolding compute_len
  compute_len_one children b t mask v asc same only one =
      let (c, found, entry) = find_valid-entries children _ [] same in
      let at : c.branch ≡ b = ap (λ (e : ChildEntry). e.branch) entry in
      let known : c.hash ≡ reference keccak256 t = ap (λ (e : ChildEntry). e.hash) entry in
      let first = rw same at asc in
      rw (
        one,
        found,
        extra_nibble_run c t (omega (arith, first, at)) known (only c found),
        at,
        keccak_inplace_run keccak256 hash leaf_data (graft b t),
      )

  -- For a node with a value compute_len leaves 32 bytes in the state: the hash of the root of the trie
  -- of its children, which are valid in ascending order and hold the references of their subtries. An only
  -- child is a node that stands for its subtrie and is taken one nibble further down.
  pub compute_len_lem :
      (children : List ChildData) (ts : Subtries) (mask : ℕ → Bool) (v : List ℕ)
      → IsAscending 0 (entries_of children)
      → entries_of children ≡ entries_for keccak256 ts
      → popcount mask 16 0 ≡ length (entries_of children)
      → ((b : ℕ) (t : Trie) (c : ChildData)
          → ts ≡ subtrie b t no_subtrie
          → find_valid children ≡ some c
          → OnlyChild keccak256 leaf_data t c)
      → compute_len keccak256 leaf_data [] children mask (some v)
        ≡ ok (32, root_hash keccak256 (root_of ts))
  unfolding has_single_bit
  compute_len_lem children no_subtrie mask v asc same count only =
      let bits : (popcount mask 16 0 == 1) ≡ false = rw (count, same) in
      compute_len_many children no_subtrie mask v asc same bits
  compute_len_lem children (subtrie b t no_subtrie) mask v asc same count only =
      let bits : (popcount mask 16 0 == 1) ≡ true = rw (count, same) in
      compute_len_one children b t mask v asc same (λ c found. only b t c refl found) bits
  compute_len_lem children (subtrie b t (subtrie c u ts)) mask v asc same count only =
      let n = length (entries_for keccak256 ts) in
      let two : (suc (suc n) == 1) ≡ false = ground arith in
      let bits : (popcount mask 16 0 == 1) ≡ false = rw (count, same) two in
      compute_len_many children (subtrie b t (subtrie c u ts)) mask v asc same bits
