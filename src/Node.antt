-- ===== src/Node.antt =====
-- depend/monad/category/mpt/node.hpp, node.cpp: the trie's nodes as a tree.
use nomad_mpt.Prelude.{
  ℕ, suc, ◌==◌, if◌then◌else◌, Option, none, some, List, ◌∷◌, ◌++◌, ltb, leb, length,
}
use nomad_mpt.Result.{Result, ok, ◌>>=◌, check, ◌>>◌}

-- A node with every child in memory. The children are the set bits of `mask` in ascending order,
-- each with the node that its pointer reaches.
mutual
  pub data Node : Type 0 where
    node : (path : List ℕ) (value : Option (List ℕ)) (version : ℕ) (children : Children) → Node

  pub data Children : Type 0 where
    no_child : Children
    child : (branch : ℕ) → Node → Children → Children

abbrev pub path : Node → List ℕ
path (node p v ver cs) = p

abbrev pub value : Node → Option (List ℕ)
value (node p v ver cs) = v

abbrev pub version : Node → ℕ
version (node p v ver cs) = ver

abbrev pub children : Node → Children
children (node p v ver cs) = cs

-- `next(to_child_index(branch))` where `mask` has the bit, `none` where it has not.
unfoldable pub next_at : ℕ → Children → Option Node
next_at b no_child = none
next_at b (child c n cs) = if c == b then some n else next_at b cs

-- `number_of_children()`
abbrev pub number_of_children : Children → ℕ
number_of_children no_child = 0
number_of_children (child c n cs) = suc (number_of_children cs)

-- What a recursion leaves in the ChildData of a branch: nothing, since no mask has the branch; an
-- entry erased from the parent's mask; a finalized node; an old child that was copied over.
pub data Slot : Type 0 where
  absent : Slot
  erased : Slot
  updated : Node → Slot
  kept : Node → Slot

abbrev pub add : ℕ → Slot → Children → Children
add b absent cs = cs
add b erased cs = cs
add b (updated n) cs = child b n cs
add b (kept n) cs = child b n cs

-- `version = std::max(version, node->version)`, made where a node is finalized.
abbrev pub bump : Slot → ℕ → ℕ
bump absent v = v
bump erased v = v
bump (updated n) v = if ltb v (version n) then version n else v
bump (kept n) v = v

-- `concat` of a path, a branch and the path behind it. Its `Nibbles` keeps the length in 8 bits, which a
-- debug assertion guards.
abbrev pub join : List ℕ → ℕ → List ℕ → Result (List ℕ)
join p b q = let whole = p ++ (b ∷ q) in check (leb (length whole) 255) >> ok whole

-- `create_node_from_children_if_any`: the null pointer, a leaf, an only child that takes the path
-- of its parent, or a branch.
unfoldable pub create_node_from_children_if_any :
    Children → List ℕ → Option (List ℕ) → ℕ → Result (Option Node)
create_node_from_children_if_any no_child p none ver = ok none
create_node_from_children_if_any no_child p (some v) ver = ok (some (node p (some v) ver no_child))
create_node_from_children_if_any (child b n no_child) p none ver =
    join p b (path n) >>= λ joined. ok (some (node joined (value n) ver (children n)))
create_node_from_children_if_any (child b n no_child) p (some v) ver =
    ok (some (node p (some v) ver (child b n no_child)))
create_node_from_children_if_any (child b n (child c n' cs)) p leaf ver =
    ok (some (node p leaf ver (child b n (child c n' cs))))
