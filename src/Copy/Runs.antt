-- ===== src/Copy/Runs.antt =====
-- Runs of copy_trie, and its theorem at one of them.
use nomad_mpt.Prelude.{ℕ, ◌≡◌, ◌≢◌, refl, sym, true, none, some, List, [], ◌∷◌, ◌++◌, All}
use nomad_mpt.Result.{ok}
use nomad_mpt.Node.{Node, node, child, no_child, next_at}
use nomad_mpt.Lookup.{strip, lookup, lookup_root}
use nomad_mpt.Apply.{rest_or}
use nomad_mpt.Nibbles.Bytes.{IsNibble}
use nomad_mpt.Find.{find_blocking, find_loop}
use nomad_mpt.Copy.{
  copy_trie_impl, found_node, copy_into, copy_loop, add_branch, split_path, new_value, set_next,
  add_branch_loop, create_node_add_new_branch, create_node_with_two_children,
}
use nomad_mpt.Copy.Nodes.{NoValues}
use nomad_mpt.Copy.Contract.{Fits, copy_trie_impl_lem}

-- The key 1 2 5 below the prefix 1.
abbrev src_root : Node
src_root = node [] (some (8 ∷ [])) 1 (
    child 1
      (node [] none 1 (
        child 2 (node (5 ∷ []) (some (50 ∷ [])) 1 no_child)
          (child 6 (node [] (some (60 ∷ [])) 1 no_child) no_child)))
      no_child)

abbrev dest_root : Node
dest_root = node [] (some (7 ∷ [])) 1 (child 3 (node (4 ∷ []) (some (40 ∷ [])) 1 no_child) no_child)

-- The prefix 3 7 leaves the path of the only child: the key 3 4 stays, 3 7 2 5 and 3 7 6 are new.
abbrev copied_root : Node
copied_root = node [] (some (7 ∷ [])) 1 (
    child 3
      (node [] none 9 (
        child 4 (node [] (some (40 ∷ [])) 1 no_child) (
          child 7
            (node [] none 1 (
              child 2 (node (5 ∷ []) (some (50 ∷ [])) 1 no_child)
                (child 6 (node [] (some (60 ∷ [])) 1 no_child) no_child)))
            no_child)))
      no_child)

copy_run : copy_trie_impl src_root (1 ∷ []) (some dest_root) (3 ∷ 7 ∷ []) 9 ≡ ok copied_root
unfolding copy_trie_impl found_node copy_into copy_loop split_path new_value set_next find_blocking
    find_loop next_at create_node_with_two_children
copy_run = refl

no_values : NoValues true (3 ∷ 7 ∷ []) dest_root
unfolding lookup
no_values [] r e ne root = absurd (root refl refl)
no_values (a ∷ []) r e ne root = let first : 3 ≡ a = cc in rw (← first) refl
no_values (a ∷ b ∷ []) r e ne root = let rest : [] ≡ r = cc in absurd (ne (sym rest))
no_values (a ∷ b ∷ c ∷ q) r e ne root = cc

dest_root-Fits : Fits (some dest_root) (3 ∷ 7 ∷ [])
unfolding find_loop next_at
dest_root-Fits = (refl, no_values, λ e. cc)

copy_trie_impl_lem_example :
    (r : Node) × (copy_trie_impl src_root (1 ∷ []) (some dest_root) (3 ∷ 7 ∷ []) 9 ≡ ok r)
    × ((k : List ℕ)
        → All IsNibble k
        → k ≢ []
        → lookup r k
          ≡ rest_or
              (strip (3 ∷ 7 ∷ []) k)
              (λ k'. lookup src_root ((1 ∷ []) ++ k'))
              (lookup_root (some dest_root) k))
copy_trie_impl_lem_example =
    copy_trie_impl_lem src_root (1 ∷ []) (some dest_root) (3 ∷ 7 ∷ []) 9 (8 ∷ [])
      (unfold find_blocking find_loop next_at in refl) refl dest_root-Fits

-- A prefix that goes on behind a key: the key 3 4 loses its value.
lost_value_run :
    copy_trie_impl src_root (1 ∷ 6 ∷ []) (some dest_root) (3 ∷ 4 ∷ 0 ∷ []) 9
    ≡ ok (
        node [] (some (7 ∷ [])) 1 (
          child 3
            (node (4 ∷ []) none 9 (child 0 (node [] (some (60 ∷ [])) 1 no_child) no_child))
            no_child))
unfolding copy_trie_impl found_node copy_into copy_loop add_branch new_value set_next find_blocking
    find_loop next_at create_node_add_new_branch add_branch_loop
lost_value_run = refl
