-- ===== src/Merkle/VarLen/RootHash.antt =====
-- RootVarLenMerkleCompute::compute_len leaves the hash of the root.
use nomad_mpt.Prelude.{
  ℕ, suc, ◌≡◌, refl, ap, arith, ◌==◌, if◌then◌else◌, Bool, true, false, Option, some, List, [],
  length,
}
use nomad_mpt.Result.{Result, ok, aborted}
use nomad_mpt.Merkle.{Keccak, ChildData, ChildEntry}
use nomad_mpt.Merkle.Spec.{Trie, branch, Subtries, no_subtrie, subtrie, root_hash}
use nomad_mpt.Merkle.Base.{State, popcount, has_single_bit, find_valid}
use nomad_mpt.Merkle.Reference.{IsHash}
use nomad_mpt.Merkle.Children.{entries_of, IsAscending}
use nomad_mpt.Merkle.Branch.{entries_for}
use nomad_mpt.Merkle.Root.{graft, keccak_inplace_run}
use nomad_mpt.Merkle.RootHash.{find_valid-entries}
use nomad_mpt.Merkle.VarLen.{Processor, root_compute_len}
use nomad_mpt.Merkle.VarLen.Value.{value_of, HasRoom, do_compute_len_run}
use nomad_mpt.Merkle.VarLen.Root.{OnlyChild, root_of, extra_nibble_run}

module _ (keccak256 : Keccak) (hash : IsHash keccak256) (process : Processor) where
  no_bits :
      (children : List ChildData) (mask : ℕ → Bool) (value : Option (List ℕ))
      (result : Result (ℕ × State))
      → length (entries_of children) ≡ 0
      → popcount mask 16 0 ≡ length (entries_of children)
      → root_compute_len keccak256 process [] children mask value
        ≡ (if length (entries_of children) == 0 then aborted else result)
  unfolding root_compute_len
  no_bits children mask value result none_valid count = rw (count, none_valid) refl

  root_many :
      (children : List ChildData) (ts : Subtries) (mask : ℕ → Bool) (value : Option (List ℕ))
      → IsAscending 0 (entries_of children)
      → entries_of children ≡ entries_for keccak256 ts
      → HasRoom process value
      → has_single_bit mask ≡ false
      → (popcount mask 16 0 == 0) ≡ false
      → root_compute_len keccak256 process [] children mask value
        ≡ ok (32, root_hash keccak256 (branch [] ts (value_of process value)))
  unfolding root_compute_len
  root_many children ts mask value asc same room many full = rw (
    full,
    many,
    do_compute_len_run keccak256 hash process children ts value asc same room,
    keccak_inplace_run keccak256 hash (λ v i. v) (branch [] ts (value_of process value)),
  )

  root_one :
      (children : List ChildData) (b : ℕ) (t : Trie) (mask : ℕ → Bool) (value : Option (List ℕ))
      → IsAscending 0 (entries_of children)
      → entries_of children ≡ entries_for keccak256 (subtrie b t no_subtrie)
      → ((c : ChildData) → find_valid children ≡ some c → OnlyChild keccak256 process t c)
      → has_single_bit mask ≡ true
      → (popcount mask 16 0 == 0) ≡ false
      → root_compute_len keccak256 process [] children mask value
        ≡ ok (32, root_hash keccak256 (graft b t))
  unfolding root_compute_len
  root_one children b t mask value asc same only one full =
      let (c, found, entry) = find_valid-entries children _ [] same in
      let at : c.branch ≡ b = ap (λ (e : ChildEntry). e.branch) entry in
      let first = rw same at asc in
      rw (
        full,
        one,
        found,
        extra_nibble_run keccak256 hash process c t (omega (arith, first, at)) (only c found),
        at,
        keccak_inplace_run keccak256 hash (λ v i. v) (graft b t),
      )

  -- The children of the root that the mask counts are valid in ascending order and hold the references of
  -- their subtries; there is room for the root's value; an only child stands for its subtrie, leaves
  -- room for one nibble more, and has no value if it is a branch. Without a child compute_len fails its
  -- assertion. Otherwise it leaves 32 bytes in the state: the hash of the trie of the children and
  -- of the root's value, where an only child is taken one nibble further down and leaves out the
  -- root's value.
  pub root_compute_len_lem :
      (children : List ChildData) (ts : Subtries) (mask : ℕ → Bool) (value : Option (List ℕ))
      → IsAscending 0 (entries_of children)
      → entries_of children ≡ entries_for keccak256 ts
      → popcount mask 16 0 ≡ length (entries_of children)
      → HasRoom process value
      → ((b : ℕ) (t : Trie) (c : ChildData)
          → ts ≡ subtrie b t no_subtrie
          → find_valid children ≡ some c
          → OnlyChild keccak256 process t c)
      → root_compute_len keccak256 process [] children mask value ≡ (
          if length (entries_of children) == 0
          then aborted
          else ok (32, root_hash keccak256 (root_of ts (value_of process value))))
  unfolding has_single_bit
  root_compute_len_lem children no_subtrie mask value asc same count room only =
      no_bits children mask value _ (ap length same) count
  root_compute_len_lem children (subtrie b t no_subtrie) mask value asc same count room only =
      let bits : (popcount mask 16 0 == 1) ≡ true = rw (count, same) in
      let full : (popcount mask 16 0 == 0) ≡ false = rw (count, same) in
      rw (ap length same)
        (root_one children b t mask value asc same (λ c found. only b t c refl found) bits full)
  root_compute_len_lem children (subtrie b t (subtrie c u ts)) mask value asc same count room only =
      let n = length (entries_for keccak256 ts) in
      let two : (suc (suc n) == 1) ≡ false = ground arith in
      let bits : (popcount mask 16 0 == 1) ≡ false = rw (count, same) two in
      let more : (suc (suc n) == 0) ≡ false = ground arith in
      let full : (popcount mask 16 0 == 0) ≡ false = rw (count, same) more in
      rw (ap length same, more)
        (root_many children (subtrie b t (subtrie c u ts)) mask value asc same room bits full)
