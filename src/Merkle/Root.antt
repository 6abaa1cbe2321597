-- ===== src/Merkle/Root.antt =====
-- The parts of MerkleComputeBase::compute_len: an only child below one more nibble, and the hash in
-- place.
use nomad_mpt.Prelude.{
  ℕ, ◌≤◌, ◌<◌, ◌^◌, ◌≡◌, ap, ◌∙◌, arith, ltb, leb, lt→ltb, if◌then◌else◌, Bool-cases, true, false,
  inl, inr, none, some, List, [], ◌∷◌, length, append-nil,
}
use nomad_mpt.Result.{ok, ◌>>=◌}
use nomad_mpt.Nibbles.{
  NibblesView, nibble_size, data_size, view_of_nibbles, Piece, nibble, view, num_nibbles,
  piece_size,
}
use nomad_mpt.Nibbles.Sequence.{IsView, nibbles, length-run, bytes_of}
use nomad_mpt.Nibbles.Concat.{concat-spell, data_size-concat}
use nomad_mpt.Rlp.Bytes.{not_leb}
use nomad_mpt.Rlp.Spans.{le→leb}
use nomad_mpt.Merkle.{Keccak, ChildData, to_node_reference, encode_two_pieces}
use nomad_mpt.Merkle.Spec.{
  encode, Trie, leaf, branch, Subtries, no_subtrie, subtrie, item_of, reference, root_hash,
}
use nomad_mpt.Merkle.Base.{
  compute_branch, LeafData, State, has_path, path_behind, second_piece,
  compute_hash_with_extra_nibble_to_state_, keccak_inplace_to_root_hash,
}
use nomad_mpt.Merkle.Reference.{IsHash}
use nomad_mpt.Merkle.Pieces.{encode_two_pieces-leaf, encode_two_pieces-extension}
use nomad_mpt.Merkle.Branch.{reference-eq, branch_item, compute_branch_run}
use nomad_mpt.Merkle.Compute.{Commits, denoted, item_of-branch}

-- A subtrie one nibble further down.
abbrev pub graft : ℕ → Trie → Trie
graft b (leaf path value) = leaf (b ∷ path) value
graft b (branch path ts value) = branch (b ∷ path) ts value

-- The root of the subtries: a trie has no branch of one child.
abbrev pub root_of : Subtries → Trie
root_of no_subtrie = branch [] no_subtrie []
root_of (subtrie b t no_subtrie) = graft b t
root_of (subtrie b t (subtrie c u ts)) = branch [] (subtrie b t (subtrie c u ts)) []

-- The path of the only child below its parent.
pub path_behind_run :
    (b : ℕ) (path : NibblesView)
    → b < 16
    → IsView path
    → nibble_size path < 64
    → (w : NibblesView) × (path_behind b path ≡ ok w)
      × IsView w
      × (data_size w ≤ 32)
      × (nibbles w ≡ b ∷ nibbles path)
unfolding path_behind num_nibbles piece_size
path_behind_run b path small viewed short =
    let ps : List Piece = nibble b ∷ view path ∷ [] in
    let few : num_nibbles ps ≤ 255 = omega arith in
    let (r, e, is_view, spelled) = concat-spell ps (small, (viewed, tt)) few in
    let size = data_size-concat ps r (small, (viewed, tt)) few e in
    (
      view_of_nibbles r,
      rw (e, path_behind),
      is_view,
      omega (arith, size),
      spelled ∙ ap (◌∷◌ b) (append-nil (nibbles path)),
    )

-- The only child of a root: its node, and that its path leaves room for one nibble more.
pub record OnlyChild (keccak256 : Keccak) (leaf_data : LeafData) (t : Trie) (c : ChildData)
    : Type 0 where
  pub below : Subtries
  pub commits : Commits keccak256 below c.ptr
  pub denotes : denoted leaf_data below c.ptr ≡ t
  pub short : nibble_size c.ptr.path < 64
  pub data_fits :
      (v : List ℕ) → c.ptr.value ≡ some v → length (leaf_data v c.ptr.intermediate) < 2 ^ 32

module _ (keccak256 : Keccak) (hash : IsHash keccak256) (leaf_data : LeafData) where
  -- A reference hashed in place is the hash of the item.
  pub keccak_inplace_run :
      (t : Trie)
      → keccak_inplace_to_root_hash keccak256 (reference keccak256 t) ≡ ok (root_hash keccak256 t)
  unfolding keccak_inplace_to_root_hash reference root_hash
  keccak_inplace_run t =
      let bytes = encode (item_of keccak256 t) in
      elim (Bool-cases (leb 32 (length bytes))) [
        | inl e ↦
            let size = hash bytes in
            let long : ltb (length (keccak256 bytes)) 32 ≡ false = rw size in
            let fits : leb (length (keccak256 bytes)) 32 ≡ true = rw size in rw (e, fits, long)
        | inr e ↦
            let lt = not_leb _ _ e in rw (e, le→leb (length bytes) 32 (omega arith), lt→ltb _ _ lt)
      ]

  -- The leaf below the extra nibble.
  pub extra_nibble_leaf :
      (c : ChildData) (state v : List ℕ)
      → c.branch < 16
      → IsView c.ptr.path
      → nibble_size c.ptr.path < 64
      → c.ptr.value ≡ some v
      → length (leaf_data v c.ptr.intermediate) < 2 ^ 32
      → compute_hash_with_extra_nibble_to_state_ keccak256 leaf_data state c
        ≡ ok (
            reference keccak256
              (graft c.branch (leaf (nibbles c.ptr.path) (leaf_data v c.ptr.intermediate))))
  unfolding compute_hash_with_extra_nibble_to_state_ second_piece item_of
  extra_nibble_leaf c state v small viewed short e fits =
      let (w, made, is_view, size, spelled) =
        path_behind_run c.branch c.ptr.path small viewed short in
      let value = leaf_data v c.ptr.intermediate in
      rw (
        made,
        e,
        encode_two_pieces-leaf keccak256 w is_view size value fits,
        spelled,
        reference-eq keccak256 hash (leaf (c.branch ∷ nibbles c.ptr.path) value),
      )

  no_value :
      (c : ChildData) (state : State)
      → c.ptr.value ≡ none
      → compute_hash_with_extra_nibble_to_state_ keccak256 leaf_data state c ≡ (
          path_behind c.branch c.ptr.path >>= (λ path.
            (if has_path c.ptr then compute_branch keccak256 state c.ptr else ok (c.hash, state))
            >>= (λ second. encode_two_pieces keccak256 path second.0 false)))
  unfolding compute_hash_with_extra_nibble_to_state_ second_piece
  no_value c state e = rw e

  pub no_extension :
      (p : List ℕ) (us : Subtries)
      → length p ≡ 0
      → reference keccak256 (branch p us [])
        ≡ to_node_reference keccak256 (encode (branch_item keccak256 hash us))
  unfolding item_of
  no_extension [] us e = reference-eq keccak256 hash (branch [] us [])
  no_extension (x ∷ p) us e = absurd (omega arith)

  -- The branch below the extra nibble: an extension.
  pub extra_nibble_branch :
      (c : ChildData) (ts : Subtries)
      → c.branch < 16
      → Commits keccak256 ts c.ptr
      → nibble_size c.ptr.path < 64
      → c.ptr.value ≡ none
      → c.hash ≡ reference keccak256 (branch (nibbles c.ptr.path) ts [])
      → compute_hash_with_extra_nibble_to_state_ keccak256 leaf_data [] c
        ≡ ok (reference keccak256 (graft c.branch (branch (nibbles c.ptr.path) ts [])))
  extra_nibble_branch c ts small commits short e known =
      let path = nibbles c.ptr.path in
      let (w, made, is_view, size, spelled) =
        path_behind_run c.branch c.ptr.path small commits.viewed short in
      let i = branch_item keccak256 hash ts in
      let second : (if has_path c.ptr then compute_branch keccak256 [] c.ptr else ok (c.hash, []))
          ≡ ok (to_node_reference keccak256 (encode i), []) =
        elim (Bool-cases (has_path c.ptr)) [
          | inl some_path ↦ rw some_path (
              compute_branch_run keccak256 hash c.ptr ts commits.committed
                (omega (arith, commits.branches e)))
          | inr no_path ↦
              let len =
                length-run (bytes_of c.ptr.path.buffer) c.ptr.path.begin_nibble
                  (nibble_size c.ptr.path) in
              let empty : length path ≡ 0 = ground (arith, len) in
              rw (no_path, known) (ap (λ (r : List ℕ). ok (r, [])) (no_extension path ts empty))
        ] in
      no_value c [] e
      ∙ rw (made, second)
          (encode_two_pieces-extension keccak256 w is_view size hash i
            ∙ rw (
              spelled,
              reference-eq keccak256 hash (branch (c.branch ∷ path) ts []),
              item_of-branch keccak256 hash leaf_data (c.branch ∷ path) ts,
            ))
