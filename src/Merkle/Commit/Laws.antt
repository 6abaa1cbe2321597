-- ===== src/Merkle/Commit/Laws.antt =====
-- A tree committed from its leaves up is named by the reference of the trie that it stands for.
use nomad_mpt.Prelude.{
  ℕ, ◌+◌, ◌<◌, ◌^◌, ◌≡◌, refl, ap, subst, arith, ◌==◌, not, true, false, Option, none, some, List,
  [], ◌∷◌, length, lt→ltb,
}
use nomad_mpt.Result.{ok, ◌>>=◌}
use nomad_mpt.Nibbles.{NibblesView}
use nomad_mpt.Merkle.{Keccak, ChildData, TrieNode}
use nomad_mpt.Merkle.Spec.{no_subtrie, reference, root_hash}
use nomad_mpt.Merkle.Base.{LeafData, State, compute_branch, compute_len}
use nomad_mpt.Merkle.Reference.{IsHash}
use nomad_mpt.Merkle.Children.{entries_of, IsAscending}
use nomad_mpt.Merkle.Compute.{denoted, compute_lem}
use nomad_mpt.Merkle.Root.{root_of}
use nomad_mpt.Merkle.RootHash.{compute_len_lem}
use nomad_mpt.Merkle.Commit.{
  Tree, tree, Subtrees, no_tree, more, mask_of, make_node, create_node_with_children, create_node,
  finalize, commit, commit_all,
}
use nomad_mpt.Merkle.Commit.Spec.{trie_of, tries_of, IsTree, AreTrees}
use nomad_mpt.Prelude.{◌&&◌}
use nomad_mpt.Merkle.Base.{popcount}
use nomad_mpt.Merkle.Commit.Mask.{popcount_empty, popcount-mask_of}
use nomad_mpt.Merkle.Commit.Children.{
  Done, Paired, entries_of-Paired, length-entries_for, entries_for-IsAscending, only-Paired,
}

module _ (keccak256 : Keccak) (hash : IsHash keccak256) (leaf_data : LeafData) where
  -- A state that holds a hash is copied into the node.
  copied :
      (state : State) (n : TrieNode)
      → 0 < length n.entries
      → length state ≡ 32
      → compute_branch keccak256 state n ≡ ok (state, [])
  unfolding compute_branch
  copied state n some_child size =
      let full : not (length state == 0) ≡ true = rw size in rw (lt→ltb _ _ some_child, full)

  none_len :
      (children : List ChildData) (path : NibblesView)
      → 1 < length (entries_of children)
      → popcount (mask_of (entries_of children)) 16 0 ≡ length (entries_of children)
      → create_node keccak256 leaf_data [] (mask_of (entries_of children)) children path none
        ≡ ok (make_node children path none 0, [])
  unfolding create_node create_node_with_children compute_len
  none_len children path many bits =
      let there : (length (entries_of children) == 0) ≡ false = ground arith in
      let two : (length (entries_of children) == 1) ≡ false = ground arith in
      rw (bits, there, two) refl

  some_len :
      (children : List ChildData) (path : NibblesView) (v root : List ℕ)
      → 0 < length (entries_of children)
      → length root ≡ 32
      → compute_len keccak256 leaf_data [] children (mask_of (entries_of children)) (some v)
        ≡ ok (32, root)
      → popcount (mask_of (entries_of children)) 16 0 ≡ length (entries_of children)
      → create_node keccak256 leaf_data [] (mask_of (entries_of children)) children path (some v)
        ≡ ok (record (make_node children path (some v) 32) { intermediate = root }, [])
  unfolding create_node create_node_with_children
  some_len children path v root some_child size made bits =
      let there : (length (entries_of children) == 0) ≡ false = ground arith in
      let valued : (length (entries_of children) == 1 && false) ≡ false = ground arith in
      rw (
        bits,
        there,
        valued,
        made,
        copied root (make_node children path (some v) 32) some_child size,
      )

  branch_made :
      (path : NibblesView) (ts : Subtrees) (cs : List ChildData)
      → IsTree leaf_data (tree path none ts)
      → Paired keccak256 leaf_data ts cs
      → (n : TrieNode) × (create_node keccak256 leaf_data [] (mask_of (entries_of cs)) cs path none
          ≡ ok (n, []))
        × Done keccak256 leaf_data (tree path none ts) n
  unfolding trie_of denoted
  branch_made path ts cs (viewed, fits, two, below) paired =
      let same = entries_of-Paired keccak256 leaf_data 0 ts cs below paired in
      let size = length-entries_for keccak256 leaf_data ts in
      let many : 1 < length (entries_of cs) = omega (arith, ap length same, size) in
      let asc : IsAscending 0 (entries_of cs) =
        rw same (entries_for-IsAscending keccak256 leaf_data hash 0 ts below) in
      (
        make_node cs path none 0,
        none_len cs path many (popcount-mask_of (entries_of cs) 16 0 asc refl),
        record {
          below = tries_of keccak256 leaf_data ts;
          commits = record { viewed = viewed; fits = fits; committed = same; branches = λ e. many };
          denotes = refl;
          path_kept = refl;
          data_fits = λ v e. cc;
        },
      )

  data_small :
      (v w i : List ℕ)
      → some v ≡ some w
      → length (leaf_data v i) < 2 ^ 32
      → length (leaf_data w i) < 2 ^ 32
  data_small v w i e h =
      let same : v ≡ w = cc in subst (λ (u : List ℕ). length (leaf_data u i) < 2 ^ 32) same h

  leaf_made :
      (path : NibblesView) (v : List ℕ) (ts : Subtrees) (cs : List ChildData)
      → IsTree leaf_data (tree path (some v) ts)
      → Paired keccak256 leaf_data ts cs
      → (n : TrieNode) × (create_node keccak256 leaf_data []
            (mask_of (entries_of cs))
            cs
            path
            (some v)
          ≡ ok (n, []))
        × Done keccak256 leaf_data (tree path (some v) ts) n
  unfolding trie_of tries_of denoted create_node
  leaf_made path v no_tree (c ∷ cs) h paired = absurd paired
  leaf_made path v no_tree [] (viewed, fits, small, short, below) paired = (
    make_node [] path (some v) 0,
    rw (popcount_empty 16 0) refl,
    record {
      below = no_subtrie;
      commits = record { viewed = viewed; fits = fits; committed = refl; branches = λ e. cc };
      denotes = refl;
      path_kept = refl;
      data_fits = λ w e. data_small v w [] e (small [] (omega arith));
    },
  )
  leaf_made path v (more b t ts) cs (viewed, fits, small, short, below) paired =
      let all = more b t ts in
      let tries = tries_of keccak256 leaf_data all in
      let root = root_hash keccak256 (root_of tries) in
      let root_size : length root ≡ 32 = unfold root_hash in hash _ in
      let same = entries_of-Paired keccak256 leaf_data 0 all cs below paired in
      let size = length-entries_for keccak256 leaf_data all in
      let some_child : 0 < length (entries_of cs) = omega (arith, ap length same, size) in
      let asc : IsAscending 0 (entries_of cs) =
        rw same (entries_for-IsAscending keccak256 leaf_data hash 0 all below) in
      let bits = popcount-mask_of (entries_of cs) 16 0 asc refl in
      let sized =
        compute_len_lem keccak256 hash leaf_data cs tries (mask_of (entries_of cs)) v asc same bits
          (only-Paired keccak256 leaf_data 0 all cs below short paired) in
      (
        record (make_node cs path (some v) 32) { intermediate = root },
        some_len cs path v root some_child root_size sized bits,
        record {
          below = tries;
          commits = record { viewed = viewed; fits = fits; committed = same; branches = λ e. cc };
          denotes = refl;
          path_kept = refl;
          data_fits = λ w e. data_small v w root e (small root (omega (arith, root_size)));
        },
      )

  subtrees_of :
      (path : NibblesView) (value : Option (List ℕ)) (ts : Subtrees)
      → IsTree leaf_data (tree path value ts)
      → AreTrees leaf_data 0 ts
  subtrees_of path none ts h = h.3
  subtrees_of path (some v) ts h = h.4

  node_made :
      (path : NibblesView) (value : Option (List ℕ)) (ts : Subtrees) (cs : List ChildData)
      → IsTree leaf_data (tree path value ts)
      → Paired keccak256 leaf_data ts cs
      → (n : TrieNode) × (create_node keccak256 leaf_data [] (mask_of (entries_of cs)) cs path value
          ≡ ok (n, []))
        × Done keccak256 leaf_data (tree path value ts) n
  node_made path none ts cs h paired = branch_made path ts cs h paired
  node_made path (some v) ts cs h paired = leaf_made path v ts cs h paired

  finalize_run :
      (b : ℕ) (t : Tree) (n : TrieNode)
      → Done keccak256 leaf_data t n
      → finalize keccak256 leaf_data [] b n
        ≡ ok (
          record {
            branch = b;
            hash = reference keccak256 (trie_of keccak256 leaf_data t);
            ptr = n;
          },
          [],
        )
  unfolding finalize
  finalize_run b t n done =
      rw (
        compute_lem keccak256 hash leaf_data n done.below done.commits done.data_fits,
        done.denotes,
      )

  mutual
    unfolding commit commit_all

    commit_run :
        (t : Tree)
        → IsTree leaf_data t
        → (n : TrieNode) × (commit keccak256 leaf_data [] t ≡ ok (n, []))
          × Done keccak256 leaf_data t n
    commit_run (tree path value ts) h =
        let (cs, made, paired) = commit_all_run 0 ts (subtrees_of path value ts h) in
        let (n, created, done) = node_made path value ts cs h paired in
        (n, rw (made, created), done)

    commit_all_run :
        (i : ℕ) (ts : Subtrees)
        → AreTrees leaf_data i ts
        → (cs : List ChildData) × (commit_all keccak256 leaf_data [] ts ≡ ok (cs, []))
          × Paired keccak256 leaf_data ts cs
    commit_all_run i no_tree h = ([], refl, tt)
    commit_all_run i (more b t ts) h =
        let (n, made, done) = commit_run t h.2 in
        let (cs, rest, paired) = commit_all_run (b + 1) ts h.3 in
        (
          record { branch = b; hash = reference keccak256 (trie_of keccak256 leaf_data t); ptr = n }
              ∷ cs,
          rw (made, finalize_run b t n done, rest),
          (refl, refl, done, paired),
        )

  -- Given a hash of 32 bytes, a tree is made and finalized below its parent: all assertions pass, the state
  -- is left empty, and the data of the entry is the reference of the trie of Ethereum that the tree stands
  -- for. Every node with no value has at least two subtrees.
  pub commit_lem :
      (b : ℕ) (t : Tree)
      → IsTree leaf_data t
      → (c : ChildData) × ((commit keccak256 leaf_data [] t
            >>= (λ made. finalize keccak256 leaf_data made.1 b made.0))
          ≡ ok (c, []))
        × (c.hash ≡ reference keccak256 (trie_of keccak256 leaf_data t))
  commit_lem b t h =
      let (n, made, done) = commit_run t h in
      (
        record { branch = b; hash = reference keccak256 (trie_of keccak256 leaf_data t); ptr = n },
        rw made (finalize_run b t n done),
        refl,
      )
