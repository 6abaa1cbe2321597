-- ===== src/Merkle/VarLen/Root.antt =====
-- RootVarLenMerkleCompute: an only child of the root below one more nibble.
use nomad_mpt.Prelude.{
  ℕ, ◌<◌, ◌^◌, ◌≡◌, ap, ◌∙◌, arith, ltb, lt→ltb, ltb→lt, ◌==◌, not, Bool-cases, true, false, inl,
  inr, Option, none, some, List, [], ◌∷◌, length,
}
use nomad_mpt.Result.{ok, ◌>>=◌}
use nomad_mpt.Nibbles.{nibble_size}
use nomad_mpt.Nibbles.Sequence.{nibbles}
use nomad_mpt.Merkle.{Keccak, ChildData, encode_two_pieces}
use nomad_mpt.Merkle.Spec.{Trie, leaf, branch, Subtries, no_subtrie, subtrie, item_of, reference}
use nomad_mpt.Merkle.Base.{State, has_path, path_behind}
use nomad_mpt.Merkle.Reference.{IsHash}
use nomad_mpt.Merkle.Pieces.{encode_two_pieces-leaf, encode_two_pieces-extension}
use nomad_mpt.Merkle.Branch.{reference-eq}
use nomad_mpt.Merkle.Root.{graft, path_behind_run}
use nomad_mpt.Merkle.VarLen.{
  Processor, root_second_piece, root_extra_nibble, var_len_compute_branch,
}
use nomad_mpt.Merkle.VarLen.Value.{value_of, var_len_compute_branch_run}
use nomad_mpt.Merkle.VarLen.Compute.{Commits, denoted}

-- The only child of the root: its node stands for the subtrie and leaves room for one nibble more; a
-- branch among them has no value, and without a path no intermediate data.
pub record OnlyChild (keccak256 : Keccak) (process : Processor) (t : Trie) (c : ChildData)
    : Type 0 where
  pub below : Subtries
  pub commits : Commits keccak256 process below c.ptr
  pub denotes : denoted process below c.ptr ≡ t
  pub short : nibble_size c.ptr.path < 64
  pub no_value : 0 < length c.ptr.entries → c.ptr.value ≡ none
  pub bare : 0 < length c.ptr.entries → nibble_size c.ptr.path ≡ 0 → c.ptr.intermediate ≡ []

-- The root of the subtries and of the value in the root, which an only child leaves out.
abbrev pub root_of : Subtries → List ℕ → Trie
root_of no_subtrie value = branch [] no_subtrie value
root_of (subtrie b t no_subtrie) value = graft b t
root_of (subtrie b t (subtrie c u ts)) value = branch [] (subtrie b t (subtrie c u ts)) value

module _ (keccak256 : Keccak) (process : Processor) (c : ChildData) (state : State) where
  leaf_piece :
      (v : List ℕ)
      → length c.ptr.entries ≡ 0
      → c.ptr.value ≡ some v
      → root_extra_nibble keccak256 process state c ≡ (
          path_behind c.branch c.ptr.path
          >>= (λ path. encode_two_pieces keccak256 path (process v) true))
  unfolding root_extra_nibble root_second_piece
  leaf_piece v none_below is =
      let no_child : ltb 0 (length c.ptr.entries) ≡ false = ground arith in rw (no_child, is)

  branch_piece :
      (bytes : List ℕ) (state' : State)
      → root_second_piece keccak256 process state c ≡ ok (bytes, state')
      → c.ptr.value ≡ none
      → root_extra_nibble keccak256 process state c ≡ (
          path_behind c.branch c.ptr.path
          >>= (λ path. encode_two_pieces keccak256 path bytes false))
  unfolding root_extra_nibble
  branch_piece bytes state' piece is = rw piece (
      ap
        (λ (v : Option (List ℕ)). path_behind c.branch c.ptr.path >>= (λ path.
          encode_two_pieces keccak256 path bytes (elim v [ none ↦ false | some x ↦ true ])))
        is)

  stored_piece :
      0 < length c.ptr.entries
      → 0 < length c.ptr.intermediate
      → root_second_piece keccak256 process state c ≡ ok (c.ptr.intermediate, state)
  unfolding root_second_piece
  stored_piece some_child some_byte = rw (lt→ltb _ _ some_child, lt→ltb _ _ some_byte)

  computed_piece :
      0 < length c.ptr.entries
      → c.ptr.intermediate ≡ []
      → has_path c.ptr ≡ false
      → root_second_piece keccak256 process state c
        ≡ var_len_compute_branch keccak256 process state c.ptr
  unfolding root_second_piece
  computed_piece some_child bare path =
      let no_byte : ltb 0 (length c.ptr.intermediate) ≡ false =
        ap (λ (b : List ℕ). ltb 0 (length b)) bare in
      rw (lt→ltb _ _ some_child, no_byte, path)

module _ (keccak256 : Keccak) (hash : IsHash keccak256) (process : Processor) where
  extra_leaf :
      (c : ChildData) (ts : Subtries) (v : List ℕ)
      → c.branch < 16
      → Commits keccak256 process ts c.ptr
      → nibble_size c.ptr.path < 64
      → length c.ptr.entries ≡ 0
      → c.ptr.value ≡ some v
      → 0 < length v
      → root_extra_nibble keccak256 process [] c
        ≡ ok (
            reference keccak256
              (leaf (c.branch ∷ nibbles c.ptr.path) (value_of process c.ptr.value)))
  unfolding item_of
  extra_leaf c ts v small commits short none_below is some_byte =
      let (w, made, is_view, size, spelled) =
        path_behind_run c.branch c.ptr.path small commits.viewed short in
      let full : not (length v == 0) ≡ true = ground arith in
      let same : value_of process c.ptr.value ≡ process v = ap (value_of process) is ∙ rw full in
      let fits : length (process v) < 2 ^ 32 = omega (arith, ap length same, commits.room.1) in
      leaf_piece keccak256 process c [] v none_below is
      ∙ rw (
        made,
        encode_two_pieces-leaf keccak256 w is_view size (process v) fits,
        spelled,
        same,
        reference-eq keccak256 hash (leaf (c.branch ∷ nibbles c.ptr.path) (process v)),
      )

  -- The second piece of a branch is its reference.
  branch_second :
      (c : ChildData) (t : Trie) (only : OnlyChild keccak256 process t c)
      → 0 < length c.ptr.entries
      → (state : State) × (root_second_piece keccak256 process [] c
          ≡ ok (reference keccak256 (branch [] only.below []), state))
  branch_second c t only some_child =
      let is = only.no_value some_child in
      let no_value : value_of process c.ptr.value ≡ [] = ap (value_of process) is in
      elim (Bool-cases (has_path c.ptr)) [
        | inl path ↦
            let (_, known, some_byte) = only.commits.extended some_child (ltb→lt _ _ path) in
            (
              [],
              stored_piece keccak256 process c [] some_child some_byte
                  ∙ ap (λ (b : List ℕ). ok (b, [])) known,
            )
        | inr path ↦ (
          [],
          computed_piece keccak256 process c [] some_child (only.bare some_child (ground arith))
                path
              ∙ var_len_compute_branch_run keccak256 hash process c.ptr only.below
                  only.commits.committed some_child only.commits.room
              ∙ ap (λ (v : List ℕ). ok (reference keccak256 (branch [] only.below v), [])) no_value,
        )
      ]

  extra_branch :
      (c : ChildData) (t : Trie) (only : OnlyChild keccak256 process t c)
      → c.branch < 16
      → 0 < length c.ptr.entries
      → root_extra_nibble keccak256 process [] c
        ≡ ok (reference keccak256 (branch (c.branch ∷ nibbles c.ptr.path) only.below []))
  unfolding item_of
  extra_branch c t only small some_child =
      let (w, made, is_view, size, spelled) =
        path_behind_run c.branch c.ptr.path small only.commits.viewed only.short in
      let (state, piece) = branch_second c t only some_child in
      let b = branch [] only.below [] in
      let is = only.no_value some_child in
      branch_piece keccak256 process c [] (reference keccak256 b) state piece is
      ∙ rw (
        made,
        reference-eq keccak256 hash b,
        encode_two_pieces-extension keccak256 w is_view size hash (item_of keccak256 b),
        spelled,
        reference-eq keccak256 hash (branch (c.branch ∷ nibbles c.ptr.path) only.below []),
      )

  -- The only child, behind its extra nibble.
  pub extra_nibble_run :
      (c : ChildData) (t : Trie)
      → c.branch < 16
      → OnlyChild keccak256 process t c
      → root_extra_nibble keccak256 process [] c ≡ ok (reference keccak256 (graft c.branch t))
  unfolding denoted
  extra_nibble_run c t small only = elim (Bool-cases (length c.ptr.entries == 0)) [
    | inl e ↦
        let none_below : length c.ptr.entries ≡ 0 = ground arith in
        let (v, is, some_byte) = only.commits.leaf_value none_below in
        let trie = rw e at only.denotes in
        rw (← trie)
          (extra_leaf c only.below v small only.commits only.short none_below is some_byte)
    | inr e ↦
        let some_child : 0 < length c.ptr.entries = ground arith in
        let trie = rw (e, only.no_value some_child) at only.denotes in
        rw (← trie) (extra_branch c t only small some_child)
  ]
