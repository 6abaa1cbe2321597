-- ===== src/Merkle/Commit/Children.antt =====
-- The finalized children of a node against the subtrees that they were made from.
use nomad_mpt.Prelude.{ℕ, ◌+◌, ◌<◌, ◌^◌, ◌≡◌, refl, subst, arith, true, some, List, [], ◌∷◌, length}
use nomad_mpt.Merkle.{Keccak, ChildData, TrieNode, is_valid}
use nomad_mpt.Merkle.Spec.{Trie, Subtries, no_subtrie, subtrie, reference}
use nomad_mpt.Merkle.Base.{LeafData, find_valid}
use nomad_mpt.Merkle.Reference.{IsHash}
use nomad_mpt.Merkle.Children.{entry_of, entries_of, IsAscending}
use nomad_mpt.Merkle.Branch.{entries_for, entries_for-IsSmall}
use nomad_mpt.Merkle.Compute.{Commits, denoted}
use nomad_mpt.Merkle.Root.{OnlyChild}
use nomad_mpt.Merkle.Commit.{Tree, Subtrees, no_tree, more}
use nomad_mpt.Merkle.Commit.Spec.{path_of, trie_of, tries_of, number_of, IsShort, AreTrees}
use mathlib.Core.Path.{ap₂}

-- The node was made from the tree: it stands for the tree's trie.
pub record Done (keccak256 : Keccak) (leaf_data : LeafData) (t : Tree) (n : TrieNode) : Type 0 where
  pub below : Subtries
  pub commits : Commits keccak256 below n
  pub denotes : denoted leaf_data below n ≡ trie_of keccak256 leaf_data t
  pub path_kept : n.path ≡ path_of t
  pub data_fits : (v : List ℕ) → n.value ≡ some v → length (leaf_data v n.intermediate) < 2 ^ 32

-- One child for each subtree, with its branch, its reference and its node.
abbrev pub Paired : Keccak → LeafData → Subtrees → List ChildData → Type 0
Paired keccak256 leaf_data no_tree [] = Unit {0}
Paired keccak256 leaf_data no_tree (c ∷ cs) = ⊥
Paired keccak256 leaf_data (more b t ts) [] = ⊥
Paired keccak256 leaf_data (more b t ts) (c ∷ cs) =
    (c.branch ≡ b)
    × (c.hash ≡ reference keccak256 (trie_of keccak256 leaf_data t))
    × Done keccak256 leaf_data t c.ptr
    × Paired keccak256 leaf_data ts cs

is_valid_below : (c : ChildData) → c.branch < 16 → is_valid c ≡ true
unfolding is_valid
is_valid_below c h = ground arith

module _ (keccak256 : Keccak) (leaf_data : LeafData) where
  pub entries_of-Paired :
      (i : ℕ) (ts : Subtrees) (cs : List ChildData)
      → AreTrees leaf_data i ts
      → Paired keccak256 leaf_data ts cs
      → entries_of cs ≡ entries_for keccak256 (tries_of keccak256 leaf_data ts)
  unfolding tries_of
  entries_of-Paired i no_tree [] h p = refl
  entries_of-Paired i no_tree (c ∷ cs) h p = absurd p
  entries_of-Paired i (more b t ts) [] h p = absurd p
  entries_of-Paired i (more b t ts) (c ∷ cs) h (at, known, done, rest) =
      let entry : entry_of c
          ≡ record { branch = b; hash = reference keccak256 (trie_of keccak256 leaf_data t) } =
        ap₂ (λ (x : ℕ) (y : List ℕ). record { branch = x; hash = y }) at known in
      rw (is_valid_below c (omega (arith, at, h.1)))
        (ap₂ ◌∷◌ entry (entries_of-Paired (b + 1) ts cs h.3 rest))

  pub length-entries_for :
      (ts : Subtrees)
      → length (entries_for keccak256 (tries_of keccak256 leaf_data ts)) ≡ number_of ts
  unfolding tries_of
  length-entries_for no_tree = refl
  length-entries_for (more b t ts) = omega (arith, length-entries_for ts)

  pub entries_for-IsAscending :
      (hash : IsHash keccak256) (i : ℕ) (ts : Subtrees)
      → AreTrees leaf_data i ts
      → IsAscending i (entries_for keccak256 (tries_of keccak256 leaf_data ts))
  unfolding tries_of
  entries_for-IsAscending hash i no_tree h = tt
  entries_for-IsAscending hash i (more b t ts) h = (
    h.0,
    h.1,
    (entries_for-IsSmall keccak256 hash
        (subtrie b (trie_of keccak256 leaf_data t) (tries_of keccak256 leaf_data ts))).0,
    entries_for-IsAscending hash (b + 1) ts h.3,
  )

  found_only : (c' c : ChildData) → is_valid c' ≡ true → find_valid (c' ∷ []) ≡ some c → c' ≡ c
  unfolding find_valid
  found_only c' c e found = let here : some c' ≡ some c = rw e at found in cc

  -- An only subtree was made into an only child.
  pub only-Paired :
      (i : ℕ) (ts : Subtrees) (cs : List ChildData)
      → AreTrees leaf_data i ts
      → IsShort ts
      → Paired keccak256 leaf_data ts cs
      → (b : ℕ) (t : Trie) (c : ChildData)
      → tries_of keccak256 leaf_data ts ≡ subtrie b t no_subtrie
      → find_valid cs ≡ some c
      → OnlyChild keccak256 leaf_data t c
  unfolding tries_of
  only-Paired i no_tree cs h short p b t c e found = cc
  only-Paired i (more b' t' no_tree) [] h short p b t c e found = absurd p
  only-Paired i (more b' t' no_tree) (c' ∷ x ∷ cs) h short p b t c e found = absurd p.3
  only-Paired i (more b' t' (more b'' t'' ts)) cs h short p b t c e found = cc
  only-Paired i (more b' t' no_tree) (c' ∷ []) h short (at, known, done, rest) b t c e found =
      let same : c' ≡ c = found_only c' c (is_valid_below c' (omega (arith, at, h.1))) found in
      let trie : trie_of keccak256 leaf_data t' ≡ t = cc in
      let only : OnlyChild keccak256 leaf_data (trie_of keccak256 leaf_data t') c' = record {
        below = done.below;
        commits = done.commits;
        denotes = done.denotes;
        short = rw done.path_kept short;
        data_fits = done.data_fits;
      } in
      subst (λ (u : Trie). OnlyChild keccak256 leaf_data u c) trie
        (subst (λ (d : ChildData). OnlyChild keccak256 leaf_data (trie_of keccak256 leaf_data t') d)
          same only)
