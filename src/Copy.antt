-- ===== src/Copy.antt =====
-- depend/monad/category/mpt/copy_trie.cpp: a subtrie of one trie is put below a prefix of another, in
-- memory. The walk by a parent pointer is a recursion that returns the new node. The children of the
-- source node are moved: its trie no longer holds them in memory.
pub mod Merge
pub mod Steps
pub mod Nodes
pub mod Laws
pub mod Contract
pub mod Runs
use nomad_mpt.Prelude.{
  ℕ, zero, suc, ◌+◌, ◌==◌, ltb, if◌then◌else◌, Bool, true, false, Option, none, some, List, [], ◌∷◌,
  length, get_or, take, drop,
}
use nomad_mpt.Result.{Result, ok, aborted, ◌>>=◌, check, ◌>>◌}
use nomad_mpt.Node.{Node, node, Children, no_child, child, path, value, version, children, next_at}
use nomad_mpt.Find.{FindResult, success, NodeCursor, find_blocking}

-- The loop over the sixteen branches, with the rounds that are left: the new child takes the place of
-- its branch, any other branch of the mask keeps its child.
unfoldable pub add_branch_loop : Children → ℕ → Node → ℕ → ℕ → Children
add_branch_loop old new_branch new_child zero i = no_child
add_branch_loop old new_branch new_child (suc k) i =
    let rest = add_branch_loop old new_branch new_child k (i + 1) in
    if i == new_branch
    then child i new_child rest
    else elim (next_at i old) [ none ↦ rest | some c ↦ child i c rest ]

unfoldable pub create_node_add_new_branch : Node → ℕ → Node → ℕ → Option (List ℕ) → Node
create_node_add_new_branch n new_branch new_child new_version opt_value =
    node (path n) opt_value new_version (add_branch_loop (children n) new_branch new_child 16 0)

unfoldable pub create_node_with_two_children :
    List ℕ → ℕ → Node → ℕ → Node → ℕ → Option (List ℕ) → Node
create_node_with_two_children p branch0 child0 branch1 child1 new_version opt_value =
    node p opt_value new_version (
      if ltb branch0 branch1
      then child branch0 child0 (child branch1 child1 no_child)
      else child branch1 child1 (child branch0 child0 no_child))

-- `make_node(from, path, from.opt_value(), version)`
abbrev pub remake : Node → List ℕ → ℕ → Node
remake from p new_version = node p (value from) new_version (children from)

-- `set_next` of the child at a branch
unfoldable pub set_next : ℕ → Node → Children → Children
set_next b n no_child = no_child
set_next b n (child c m cs) = if c == b then child c n cs else child c m (set_next b n cs)

-- `src_root->value()`, which the new node has in place of the destination's root
unfoldable pub new_value : Bool → Option (List ℕ) → Result (Option (List ℕ))
new_value at_root src_value = elim at_root [
  | false ↦ ok none
  | true ↦ elim src_value [ none ↦ aborted | some v ↦ ok (some v) ]
]

-- What the walk needs of the source: its node and its root's value; and the version to write.
pub record Source : Type 0 where
  pub src_node : Node
  pub src_value : Option (List ℕ)
  pub dest_version : ℕ

-- The path of `n` and the prefix differ at a nibble.
unfoldable pub split_path : Source → Bool → ℕ → List ℕ → Node → ℕ → Result Node
split_path s at_root nibble prefix n node_prefix_index = new_value at_root s.src_value >>= (λ v.
    ok (
      create_node_with_two_children (take node_prefix_index (path n)) nibble
        (remake s.src_node prefix (version s.src_node)) (get_or (path n) node_prefix_index 0)
        (remake n (drop (node_prefix_index + 1) (path n)) (version n)) s.dest_version v))

-- The prefix goes on where `n` has no branch.
unfoldable pub add_branch : Source → Bool → ℕ → List ℕ → Node → Result Node
add_branch s at_root nibble prefix n = new_value at_root s.src_value >>= (λ v. ok (
    create_node_add_new_branch n nibble (remake s.src_node prefix (version s.src_node))
      s.dest_version v))

-- The loop on the rest of the prefix, and the new node in place of `n`.
unfoldable pub copy_loop : Source → Bool → List ℕ → Node → ℕ → Result Node
copy_loop s at_root [] n node_prefix_index =
    check (node_prefix_index == length (path n)) >> ok (remake s.src_node (path n) s.dest_version)
copy_loop s at_root (nibble ∷ prefix) n node_prefix_index =
    let along = copy_loop s at_root prefix n (node_prefix_index + 1) in
    let split = split_path s at_root nibble prefix n node_prefix_index in
    let below : Result Node = elim (next_at nibble (children n)) [
      | none ↦ add_branch s at_root nibble prefix n
      | some c ↦
          copy_loop s false prefix c 0
          >>= (λ c'. ok (node (path n) (value n) (version n) (set_next nibble c' (children n))))
    ] in
    if ltb node_prefix_index (length (path n))
    then (if nibble == get_or (path n) node_prefix_index 0 then along else split)
    else below

-- A new root over the one child, where there is no destination.
unfoldable pub new_root : Source → List ℕ → Result Node
new_root s [] = aborted
new_root s (nibble ∷ prefix) = new_value true s.src_value >>= (λ v.
    ok (node [] v s.dest_version (child nibble (remake s.src_node prefix s.dest_version) no_child)))

unfoldable pub copy_into : Source → Option Node → List ℕ → Result Node
copy_into s none dest_prefix = new_root s dest_prefix
copy_into s (some dest_root) dest_prefix = copy_loop s true dest_prefix dest_root 0

-- The node at which the walk down the source's prefix ends well.
unfoldable pub found_node : NodeCursor → FindResult → Result Node
found_node c r = elim r [ success ↦ elim c.node [ none ↦ aborted | some n ↦ ok n ] | _ ↦ aborted ]

unfoldable pub copy_trie_impl : Node → List ℕ → Option Node → List ℕ → ℕ → Result Node
copy_trie_impl src_root src_prefix dest_root dest_prefix dest_version =
    let at = find_blocking (record { node = some src_root; prefix_index = 0 }) src_prefix in
    found_node at.0 at.1 >>= (λ src.
      copy_into (record { src_node = src; src_value = value src_root; dest_version = dest_version })
        dest_root dest_prefix)
