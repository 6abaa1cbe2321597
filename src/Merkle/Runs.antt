-- ===== src/Merkle/Runs.antt =====
-- Runs of the commitments, and their theorems at small tries. The hash here is no hash: it writes 32
-- bytes that do not depend on its argument.
use nomad_mpt.Prelude.{
  ℕ, ◌==◌, ◌≡◌, refl, sym, ap, subst, arith, Bool, none, some, List, [], ◌∷◌, length, replicate,
}
use nomad_mpt.Result.{ok}
use nomad_mpt.Nibbles.{NibblesView, nibble_size, data_size, get_nibble, set_nibble, get}
use nomad_mpt.Nibbles.Sequence.{IsView}
use nomad_mpt.CompactEncode.{compact_encode, encode_loop}
use nomad_mpt.Rlp.{
  Span, assign, store, subspan, string_length, encode_string, list_length, encode_list,
}
use nomad_mpt.Merkle.{
  Keccak, ChildData, TrieNode, to_node_reference, encode_two_pieces, encode_16_children,
  encode_16_entries, is_valid, buffer,
}
use nomad_mpt.Merkle.Spec.{Trie, Subtries, no_subtrie, subtrie, reference, root_hash}
use nomad_mpt.Merkle.Base.{LeafData, compute, compute_len, popcount, find_valid}
use nomad_mpt.Merkle.Reference.{IsHash}
use nomad_mpt.Merkle.Children.{entries_of, IsAscending, encode_16_children_lem}
use nomad_mpt.Merkle.Branch.{entries_for-IsSmall}
use nomad_mpt.Merkle.Compute.{Commits, denoted, compute_lem}
use nomad_mpt.Merkle.Root.{OnlyChild, root_of}
use nomad_mpt.Merkle.RootHash.{compute_len_lem}

abbrev pub constant_hash : Keccak
constant_hash bytes = replicate 32 7

pub constant_hash-IsHash : IsHash constant_hash
constant_hash-IsHash bytes = refl

-- The leaf's data is its value.
abbrev value_only : LeafData
value_only v i = v

-- The nibbles 2, 3 in one byte.
abbrev pub path : NibblesView
path = record { buffer = some (0x23 ∷ []); begin_nibble = 0; end_nibble = 2 }

pub path-IsView : IsView path
path-IsView = record {
  first = omega arith;
  ordered = omega arith;
  bounded = omega arith;
  held = (omega arith, omega arith, (omega arith, tt));
}

abbrev pub small_leaf : TrieNode
small_leaf = record { path = path; value = some (0x61 ∷ []); entries = []; intermediate = [] }

-- c4 82 20 23 61
leaf_run :
    compute constant_hash value_only [] small_leaf ≡ ok (0xc4 ∷ 0x82 ∷ 0x20 ∷ 0x23 ∷ 0x61 ∷ [], [])
unfolding compute encode_two_pieces data_size compact_encode encode_loop nibble_size get get_nibble
    set_nibble string_length list_length encode_string encode_list assign store subspan
    to_node_reference
leaf_run = refl

small_leaf-Commits : Commits constant_hash no_subtrie small_leaf
small_leaf-Commits = record {
  viewed = path-IsView;
  fits = unfold data_size in omega arith;
  committed = refl;
  branches = λ e. cc;
}

compute_lem_example :
    compute constant_hash value_only [] small_leaf
    ≡ ok (reference constant_hash (denoted value_only no_subtrie small_leaf), [])
compute_lem_example =
    compute_lem constant_hash constant_hash-IsHash value_only small_leaf no_subtrie
      small_leaf-Commits
      (λ v e.
        let same : 0x61 ∷ [] ≡ v = cc in
        let one : length v ≡ 1 = ap length (sym same) in omega (arith, one))

abbrev leaf_trie : Trie
leaf_trie = denoted value_only no_subtrie small_leaf

-- An entry that was erased, and the leaf at branch 3.
abbrev leaf_child : ChildData
leaf_child = record { branch = 3; hash = reference constant_hash leaf_trie; ptr = small_leaf }

abbrev only_child : List ChildData
only_child = record { branch = 255; hash = []; ptr = small_leaf } ∷ leaf_child ∷ []

abbrev subtries : Subtries
subtries = subtrie 3 leaf_trie no_subtrie

abbrev pub mask : ℕ → Bool
mask i = i == 3

leaf_child-OnlyChild : OnlyChild constant_hash value_only leaf_trie leaf_child
leaf_child-OnlyChild = record {
  below = no_subtrie;
  commits = small_leaf-Commits;
  denotes = refl;
  short = unfold nibble_size in omega arith;
  data_fits = λ v e.
      let same : 0x61 ∷ [] ≡ v = cc in
      let one : length v ≡ 1 = ap length (sym same) in omega (arith, one);
}

only_child-IsAscending : IsAscending 0 (entries_of only_child)
unfolding is_valid
only_child-IsAscending = (
  omega arith,
  omega arith,
  (entries_for-IsSmall constant_hash constant_hash-IsHash subtries).0,
  tt,
)

only_child-OnlyChild :
    (b : ℕ) (t : Trie) (c : ChildData)
    → subtries ≡ subtrie b t no_subtrie
    → find_valid only_child ≡ some c
    → OnlyChild constant_hash value_only t c
unfolding find_valid is_valid
only_child-OnlyChild b t c e found =
    let child : leaf_child ≡ c = cc in
    let trie : leaf_trie ≡ t = cc in
    subst (λ (t' : Trie). OnlyChild constant_hash value_only t' c) trie
      (subst (λ (c' : ChildData). OnlyChild constant_hash value_only leaf_trie c') child
        leaf_child-OnlyChild)

compute_len_lem_example :
    compute_len constant_hash value_only [] only_child mask (some (1 ∷ []))
    ≡ ok (32, root_hash constant_hash (root_of subtries))
compute_len_lem_example =
    compute_len_lem constant_hash constant_hash-IsHash value_only only_child subtries mask (1 ∷ [])
      only_child-IsAscending (unfold is_valid in refl) (unfold popcount is_valid in refl)
      only_child-OnlyChild

abbrev parent : TrieNode
parent = record {
  path = path;
  value = none;
  entries = record { branch = 3; hash = reference constant_hash leaf_trie } ∷ [];
  intermediate = [];
}

encode_16_children_lem_example :
    (written : Span) × (encode_16_children only_child (buffer 532) ≡ ok written)
    × (encode_16_entries parent (buffer 532) ≡ ok written)
encode_16_children_lem_example =
    encode_16_children_lem only_child parent (buffer 532) only_child-IsAscending
      (unfold is_valid in refl) (omega arith)
