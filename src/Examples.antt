-- ===== src/Examples.antt =====
-- Runs of the model on small inputs, and the theorems at those inputs.
use nomad_mpt.Prelude.{Option, All}
use nomad_mpt.Nibbles.Bytes.{IsNibble}
use nomad_mpt.Apply.{no_keys}
use nomad_mpt.Upsert.Recursion.{create_new_trie}
use nomad_mpt.Upsert.Contract.{upsert_returns, RootStands}
use nomad_mpt.Upsert.Inserts.{create_new_trie_lem}
use nomad_mpt.Prelude.{ℕ, ◌≡◌, refl, arith, false, none, some, List, [], ◌∷◌}
use nomad_mpt.Prelude.{replicate}
use nomad_mpt.Result.{ok, aborted}
use nomad_mpt.Find.{find_blocking}
use nomad_mpt.Find.Walk.{keys_below, found, find_blocking-lookup, found-find_blocking}
use nomad_mpt.Apply.{apply_in}
use nomad_mpt.Apply.Contract.{split_into_sublists_lem}
use nomad_mpt.Apply.{Distinct, Map}
use nomad_mpt.Update.{Requests, is_empty}
use nomad_mpt.Prelude.{not}
use nomad_mpt.Upsert.Build.{lookup-create_node}
use nomad_mpt.Node.{create_node_from_children_if_any, next_at}
use nomad_mpt.Update.{
  update, UpdateList, nil, cons, split_into_sublists, split_loop, get_first_branch,
}
use nomad_mpt.Node.{Node, node, Children, no_child, child}
use nomad_mpt.Lookup.{lookup, lookup_root, lookup_child, lookup_from, strip, after, at_end}
use nomad_mpt.Apply.{apply, IsTable}
use nomad_mpt.Upsert.Base.{StateMachine, build}
use nomad_mpt.Upsert.Change.{mismatch_body}
use nomad_mpt.Upsert.Walking.{upsert_body, upsert_loop_body, split_body}
use nomad_mpt.Upsert.Recursion.{upsert, upsert_}
use nomad_mpt.Upsert.New.{create_body, from_requests_body}
use nomad_mpt.Upsert.Change.{dispatch_body}
use nomad_mpt.Upsert.Walking.{update_value_body}
use nomad_mpt.Upsert.Laws.{upsert_lem}

-- A table of fixed-length keys, and no state.
abbrev plain : StateMachine (Unit {0})
plain = record { down = λ s b. s; is_variable_length = λ s. false }

-- A trie with the keys 123 and 124, under one of them a nested table.
abbrev old_trie : Node
old_trie = node (1 ∷ 2 ∷ []) none 5 (
    child 3 (node [] (some (7 ∷ [])) 5 no_child) (
      child 4
        (node [] (some (8 ∷ [])) 4 (child 9 (node (1 ∷ []) (some (3 ∷ [])) 4 no_child) no_child))
        no_child))

-- A new key that leaves the old path, an erased key, and a nested list under an old key.
abbrev changes : UpdateList
changes = cons (update (1 ∷ 5 ∷ 0 ∷ []) (some (1 ∷ [])) false nil 6) (
    cons (update (1 ∷ 2 ∷ 3 ∷ []) none false nil 6) (
      cons
        (update (1 ∷ 2 ∷ 4 ∷ []) none false
          (cons (update (9 ∷ 2 ∷ []) (some (2 ∷ [])) false nil 6) nil) 6)
        nil))

abbrev new_trie : Node
new_trie = node (1 ∷ []) none 6 (
    child 2
      (node (4 ∷ []) (some (8 ∷ [])) 6 (
        child 9
          (node [] none 6 (
            child 1 (node [] (some (3 ∷ [])) 4 no_child)
              (child 2 (node [] (some (2 ∷ [])) 6 no_child) no_child)))
          no_child))
      (child 5 (node (0 ∷ []) (some (1 ∷ [])) 6 no_child) no_child))

changes-IsTable : IsTable 3 changes
changes-IsTable = (
  (refl, omega arith, (omega arith, (omega arith, (omega arith, tt))), (0, tt)),
  ((λ e. cc), ((λ e. cc), tt)),
  (
    (refl, omega arith, (omega arith, (omega arith, (omega arith, tt))), (0, tt)),
    ((λ e. cc), tt),
    (
      (
        refl,
        omega arith,
        (omega arith, (omega arith, (omega arith, tt))),
        (2, ((refl, omega arith, (omega arith, (omega arith, tt)), (0, tt)), tt, tt)),
      ),
      tt,
      tt,
    ),
  ),
)

changes_run : upsert plain 30 tt (some old_trie) changes ≡ ok (some new_trie)
unfolding upsert upsert_ upsert_body upsert_loop_body split_body split_into_sublists split_loop
    get_first_branch mismatch_body build dispatch_body next_at update_value_body create_body
    from_requests_body create_node_from_children_if_any
changes_run = refl

upsert_lem_example :
    lookup_root (some new_trie) (1 ∷ 2 ∷ 4 ∷ 9 ∷ 2 ∷ [])
    ≡ apply changes (lookup_root (some old_trie)) (1 ∷ 2 ∷ 4 ∷ 9 ∷ 2 ∷ [])
upsert_lem_example =
    upsert_lem plain 30 tt (some old_trie) changes 3 (some new_trie) changes-IsTable changes_run
      (1 ∷ 2 ∷ 4 ∷ 9 ∷ 2 ∷ [])
      (omega arith, (omega arith, (omega arith, (omega arith, (omega arith, tt)))))

abbrev new_keys : UpdateList
new_keys =
    cons
      (update (1 ∷ 2 ∷ 3 ∷ []) (some (1 ∷ [])) false
        (cons (update (9 ∷ 2 ∷ []) (some (2 ∷ [])) false nil 6) nil) 6)
      (cons (update (1 ∷ 2 ∷ 4 ∷ []) (some (3 ∷ [])) false nil 6) nil)

new_keys-IsTable : IsTable 3 new_keys
new_keys-IsTable = (
  (
    refl,
    omega arith,
    (omega arith, (omega arith, (omega arith, tt))),
    (2, ((refl, omega arith, (omega arith, (omega arith, tt)), (0, tt)), tt, tt)),
  ),
  ((λ e. cc), tt),
  ((refl, omega arith, (omega arith, (omega arith, (omega arith, tt))), (0, tt)), tt, tt),
)

create_new_trie_lem_example :
    (o : Option Node) × (create_new_trie plain 60 tt new_keys 0 ≡ ok o)
    × ((k : List ℕ) → All IsNibble k → lookup_root o k ≡ apply new_keys no_keys k)
create_new_trie_lem_example =
    create_new_trie_lem plain (λ s. refl) 60 tt new_keys 3 new_keys-IsTable ((tt, tt), (tt, tt))
      (omega arith)

old_trie_stands : RootStands plain (λ s. refl) 5 3 (2 ∷ []) (some old_trie)
old_trie_stands = (
  omega arith,
  (
    omega arith,
    omega arith,
    ((omega arith, refl, tt), ((omega arith, refl, ((omega arith, refl), tt)), tt)),
  ),
)

upsert_returns_example :
    (o : Option Node) × (upsert plain 60 tt (some old_trie) new_keys ≡ ok o)
    × ((k : List ℕ)
        → All IsNibble k
        → lookup_root o k ≡ apply new_keys (lookup_root (some old_trie)) k)
upsert_returns_example =
    upsert_returns plain (λ s. refl) 60 5 3 (2 ∷ []) tt (some old_trie) new_keys old_trie_stands
      new_keys-IsTable
      (
        (refl, omega arith, omega arith, ((refl, omega arith, omega arith, tt), tt)),
        ((refl, omega arith, omega arith, tt), tt),
      )
      ((tt, tt), (tt, tt)) (omega arith)

find_blocking-lookup_example :
    let (c, r) = find_blocking (record { node = some old_trie; prefix_index = 1 }) (2 ∷ 4 ∷ []) in
    keys_below c r (9 ∷ 1 ∷ []) ≡ lookup_from 1 old_trie (2 ∷ 4 ∷ 9 ∷ 1 ∷ [])
find_blocking-lookup_example =
    find_blocking-lookup old_trie 1 (2 ∷ 4 ∷ []) (9 ∷ 1 ∷ []) (omega arith)

found-find_blocking_example :
    let (c, r) =
      find_blocking (record { node = some old_trie; prefix_index = 0 }) (1 ∷ 2 ∷ 4 ∷ []) in
    found c r ≡ lookup old_trie (1 ∷ 2 ∷ 4 ∷ [])
found-find_blocking_example = found-find_blocking old_trie (1 ∷ 2 ∷ 4 ∷ [])

split_into_sublists_lem_example :
    (r : Requests) × (count : ℕ) × (split_into_sublists changes 0 ≡ ok (r, count))
    × (r.opt_leaf ≡ none)
    × ((b : ℕ)
        → (r.mask b ≡ not (is_empty (r.sublists b)))
          × Distinct 1 (r.sublists b)
          × ((m : Map) (old : Option (List ℕ)) (k : List ℕ)
              → apply_in (r.sublists b) 1 (λ k'. m (b ∷ k')) old k
                ≡ apply_in changes 0 m old (b ∷ k)))
split_into_sublists_lem_example =
    split_into_sublists_lem changes 0 3 (omega arith) (refl, (refl, (refl, tt)))
      (((λ e. cc), ((λ e. cc), tt)), (((λ e. cc), tt), (tt, tt)))

abbrev two_children : Children
two_children = child 2 (node (4 ∷ []) (some (8 ∷ [])) 6 no_child) no_child

abbrev joined_node : Node
joined_node = node (1 ∷ 2 ∷ 4 ∷ []) (some (8 ∷ [])) 3 no_child

joined_run : create_node_from_children_if_any two_children (1 ∷ []) none 3 ≡ ok (some joined_node)
unfolding create_node_from_children_if_any
joined_run = refl

lookup-create_node_example :
    lookup_root (some joined_node) (1 ∷ 2 ∷ 4 ∷ [])
    ≡ after (strip (1 ∷ []) (1 ∷ 2 ∷ 4 ∷ [])) (at_end none (lookup_child two_children))
lookup-create_node_example =
    lookup-create_node two_children (1 ∷ []) none 3 (some joined_node) (1 ∷ 2 ∷ 4 ∷ []) joined_run

-- A path of 256 nibbles, of which the length in 8 bits would be 0, fails the debug assertion.
too_long : create_node_from_children_if_any two_children (replicate 254 0) none 3 ≡ aborted
unfolding create_node_from_children_if_any
too_long = refl
