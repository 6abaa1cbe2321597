-- ===== src/Find.antt =====
-- depend/monad/category/mpt/find.cpp, with mpt/node_cursor.hpp: the walk from a root down a key, in
-- memory. A step to a child whose pointer is null reads it from disk; here every child is in memory.
pub mod Walk
use nomad_mpt.Prelude.{
  ℕ, ◌+◌, ◌==◌, if◌then◌else◌, get_or, length, Option, none, some, List, [], ◌∷◌,
}
use nomad_mpt.Node.{Node, path, children, next_at}

-- `find_result`, as far as a walk in memory gives it.
pub data FindResult : Type 0 where
  success root_node_is_null_failure key_mismatch_failure branch_not_exist_failure : FindResult
  key_ends_earlier_than_node_failure : FindResult

-- `NodeCursor`: a node, if valid, and an index into its path.
pub record NodeCursor : Type 0 where
  pub node : Option Node
  pub prefix_index : ℕ

-- The loop, on the part of the key from `prefix_index` on.
unfoldable pub find_loop : List ℕ → Node → ℕ → NodeCursor × FindResult
find_loop [] n node_prefix_index =
    if node_prefix_index == length (path n)
    then (record { node = some n; prefix_index = node_prefix_index }, success)
    else (
      record { node = some n; prefix_index = node_prefix_index },
      key_ends_earlier_than_node_failure,
    )
find_loop (nibble ∷ key) n node_prefix_index =
    let below : NodeCursor × FindResult = elim (next_at nibble (children n)) [
      | none ↦
          (record { node = some n; prefix_index = node_prefix_index }, branch_not_exist_failure)
      | some c ↦ find_loop key c 0
    ] in
    let along = find_loop key n (node_prefix_index + 1) in
    if length (path n) == node_prefix_index
    then below
    else if nibble == get_or (path n) node_prefix_index 0
    then along
    else (record { node = some n; prefix_index = node_prefix_index }, key_mismatch_failure)

unfoldable pub find_blocking : NodeCursor → List ℕ → NodeCursor × FindResult
unfolding find_loop
find_blocking root key = elim root.node [
  | none ↦ (record { node = none; prefix_index = 0 }, root_node_is_null_failure)
  | some n ↦ find_loop key n root.prefix_index
]
