-- ===== src/Merkle/Branch.antt =====
-- MerkleComputeBase::compute gives the reference of the subtrie that the node stands for.
use nomad_mpt.Prelude.{
  ℕ, zero, suc, ◌+◌, ◌≤◌, ◌<◌, ◌≡◌, refl, sym, ap, arith, lt→ltb, ◌==◌, Bool-cases, inl, inr, List,
  [], ◌∷◌, ◌++◌, length, replicate, take, All, length-append, length-drop, length-replicate,
  append-nil, append_assoc,
}
use nomad_mpt.Result.{Result, ok}
use nomad_mpt.Rlp.{Span, list_length}
use nomad_mpt.Rlp.Bytes.{string_bytes, list_bytes, length-list_bytes, list_length-small}
use nomad_mpt.Rlp.Spans.{behind, le→leb, take-append}
use nomad_mpt.Rlp.Write.{encode_list_run}
use nomad_mpt.Merkle.{
  Keccak, ChildEntry, TrieNode, child_data_view, to_node_reference, buffer, whole,
  encode_16_entries,
}
use nomad_mpt.Merkle.Spec.{
  Rlp, lst, encode, encode_all, slots, Trie, Subtries, no_subtrie, subtrie, item_of, named,
  reference,
}
use nomad_mpt.Merkle.Base.{branch_reference, compute_branch}
use nomad_mpt.Merkle.Reference.{IsHash, slot_bytes-reference, length-reference-le}
use nomad_mpt.Merkle.Children.{
  entry_bytes, slots_bytes, IsSmall, length-slots_bytes, encode_empty_string_run,
  encode_16_entries_run,
}

-- The reference of a branch from the bytes of its sixteen slots.
pub branch_reference_run :
    (keccak256 : Keccak) (write : Span → Result Span) (bytes : List ℕ)
    → write (buffer 532) ≡ ok (behind (buffer 532) bytes)
    → length bytes ≤ 528
    → branch_reference keccak256 write
      ≡ ok (to_node_reference keccak256 (list_bytes (bytes ++ (0x80 ∷ []))))
unfolding branch_reference
branch_reference_run keccak256 write bytes written fits =
    let zeros = length-replicate {A = ℕ} 532 0 in
    let d = behind (buffer 532) bytes in
    let room : 1 ≤ length d.left =
      omega (arith, length-drop (length bytes) (replicate {A = ℕ} 532 0), zeros) in
    let s = bytes ++ (0x80 ∷ []) in
    let size : length s ≡ length bytes + 1 = length-append bytes (0x80 ∷ []) in
    let list_size = list_length-small (length s) (omega (arith, size)) in
    let same = length-list_bytes s in
    let cut : take (list_length (length s)) (whole (behind (buffer 532) (list_bytes s)))
        ≡ list_bytes s =
      rw (← same) (take-append (list_bytes s) _) in
    rw (
      written,
      encode_empty_string_run d room,
      le→leb (length s) 532 (omega (arith, size)),
      le→leb (list_length (length s)) 532 (omega (arith, size, list_size)),
      encode_list_run (buffer 532) s (omega (arith, size)) (omega (arith, size, list_size, zeros)),
      cut,
    )

-- The entries of a node that has these subtries.
abbrev pub entries_for : Keccak → Subtries → List ChildEntry
entries_for keccak256 no_subtrie = []
entries_for keccak256 (subtrie b t ts) =
    record { branch = b; hash = reference keccak256 t } ∷ entries_for keccak256 ts

module _ (keccak256 : Keccak) (hash : IsHash keccak256) where
  pub reference-eq :
      (t : Trie)
      → reference keccak256 t ≡ to_node_reference keccak256 (encode (item_of keccak256 t))
  unfolding reference to_node_reference
  reference-eq t = refl

  pub entries_for-IsSmall : (ts : Subtries) → All IsSmall (entries_for keccak256 ts)
  entries_for-IsSmall no_subtrie = tt
  entries_for-IsSmall (subtrie b t ts) = (
    rw (reference-eq t) (length-reference-le keccak256 hash (item_of keccak256 t)),
    entries_for-IsSmall ts,
  )

  entry_bytes-named :
      (ts : Subtries) (i : ℕ)
      → entry_bytes (child_data_view i (entries_for keccak256 ts)) ≡ encode (named keccak256 ts i)
  unfolding child_data_view named
  entry_bytes-named no_subtrie i = unfold encode in refl
  entry_bytes-named (subtrie b t ts) i = elim (Bool-cases (b == i)) [
    | inl e ↦ rw (e, reference-eq t) (slot_bytes-reference keccak256 hash (item_of keccak256 t))
    | inr e ↦ rw e (entry_bytes-named ts i)
  ]

  -- The bytes of the slots and of the value are the RLP of the items.
  pub slots_bytes-slots :
      (ts : Subtries) (value : List ℕ) (k i : ℕ)
      → encode_all (slots (named keccak256 ts) k i value)
        ≡ slots_bytes (entries_for keccak256 ts) k i ++ string_bytes value
  unfolding encode_all
  slots_bytes-slots ts value zero i = unfold encode in append-nil (string_bytes value)
  slots_bytes-slots ts value (suc k) i =
      let bytes = entry_bytes (child_data_view i (entries_for keccak256 ts)) in
      rw (← entry_bytes-named ts i, slots_bytes-slots ts value k (i + 1))
        (sym (
          append_assoc bytes (slots_bytes (entries_for keccak256 ts) k (i + 1))
            (string_bytes value)))

  -- The item of a branch with no path.
  abbrev pub branch_item : Subtries → Rlp
  branch_item ts = lst (slots (named keccak256 ts) 16 0 [])

  pub branch_bytes :
      (ts : Subtries)
      → encode (branch_item ts)
        ≡ list_bytes (slots_bytes (entries_for keccak256 ts) 16 0 ++ (0x80 ∷ []))
  unfolding encode
  branch_bytes ts = ap list_bytes (slots_bytes-slots ts [] 16 0)

  pub compute_branch_run :
      (n : TrieNode) (ts : Subtries)
      → n.entries ≡ entries_for keccak256 ts
      → 0 < length n.entries
      → compute_branch keccak256 [] n
        ≡ ok (to_node_reference keccak256 (encode (branch_item ts)), [])
  unfolding compute_branch
  compute_branch_run n ts same some_child =
      let bytes = slots_bytes n.entries 16 0 in
      let small : All IsSmall n.entries = rw same (entries_for-IsSmall ts) in
      let written = encode_16_entries_run n (buffer 532) small (omega arith) in
      rw (
        lt→ltb _ _ some_child,
        branch_reference_run keccak256 (encode_16_entries n) bytes written
            (length-slots_bytes n.entries 16 0 small),
        same,
        ← branch_bytes ts,
      )
