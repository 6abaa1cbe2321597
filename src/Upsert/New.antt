-- ===== src/Upsert/New.antt =====
-- `create_new_trie_` and `create_new_trie_from_requests_` of depend/monad/category/mpt/trie.cpp, each
-- a body that takes the functions which it calls.
use nomad_mpt.Prelude.{ℕ, ◌+◌, ◌-◌, if◌then◌else◌, ltb, take, drop}
use nomad_mpt.Prelude.{not, ◌||◌, Option, none, List}
use nomad_mpt.Result.{Result, ok, ◌>>=◌, ◌>>◌, check}
use nomad_mpt.Update
use nomad_mpt.Update.{UpdateList, nil, cons, Requests, reset, Mask, branches, is_deletion}
use nomad_mpt.Update.{split_into_sublists, get_first_branch, get_first_path, is_empty, key}
use nomad_mpt.Node.{Node, Slot, absent}
use nomad_mpt.Node.{path, create_node_from_children_if_any}
use nomad_mpt.Upsert.Base.{
  StateMachine, is_none, build, entry, leaf_value, leaf_version, must, descend,
}

module _ {S : Type 0} (sm : StateMachine S) where
  open sm use {down, is_variable_length}

  -- The child of a new trie at one branch.
  abbrev pub new_slot :
      (S → UpdateList → ℕ → Result (Option Node)) → S → Requests → ℕ → ℕ → Result Slot
  new_slot create s r prefix_index b =
      if r.mask b then entry (create (down s b) (r.sublists b) (prefix_index + 1)) else ok absent

  unfoldable pub from_requests_body :
      (S → UpdateList → ℕ → Result (Option Node))
      → S
      → Requests
      → List ℕ
      → ℕ
      → Option (List ℕ)
      → ℕ
      → Result (Option Node)
  from_requests_body create s r path prefix_index leaf ver =
      build (new_slot create s r prefix_index) branches ver >>= λ (cs, ver').
      create_node_from_children_if_any cs path leaf ver' >>= must

  -- `create_new_trie_` on no update, one, and more.
  unfoldable pub create_body :
      (S → UpdateList → ℕ → ℕ → Result (Option Node))
      → (S → Requests → List ℕ → ℕ → Option (List ℕ) → ℕ → Result (Option Node))
      → S
      → UpdateList
      → ℕ
      → Result (Option Node)
  create_body loop from_requests s nil prefix_index = ok none
  create_body loop from_requests s (cons u nil) prefix_index =
      let path = drop prefix_index (key u) in
      let s' = descend sm s path in
      check (not (is_variable_length s') || is_empty (Update.next u))
      >> (split_into_sublists (Update.next u) 0 >>= λ (r, n).
          check (is_none r.opt_leaf)
          >> from_requests s' r path 0 (Update.value u) (Update.version u))
  create_body loop from_requests s (cons u (cons w us)) prefix_index =
      loop s (cons u (cons w us)) prefix_index prefix_index

  -- One round of the `while (true)` that looks for the place where the updates diverge.
  unfoldable pub create_loop_body :
      (S → UpdateList → ℕ → ℕ → Result (Option Node))
      → (S → Requests → List ℕ → ℕ → Option (List ℕ) → ℕ → Result (Option Node))
      → S
      → UpdateList
      → ℕ
      → ℕ
      → Result (Option Node)
  create_loop_body loop from_requests s us start prefix_index =
      split_into_sublists us prefix_index >>= λ (r, n).
      check (ltb 0 n)
      >> (check (is_none r.opt_leaf || is_variable_length s)
          >> (if ltb 1 n || not (is_none r.opt_leaf)
              then from_requests s r (take (prefix_index - start) (drop start (get_first_path r)))
                  prefix_index (leaf_value r.opt_leaf) (leaf_version r.opt_leaf)
              else loop (down s (get_first_branch r)) (r.sublists (get_first_branch r)) start
                  (prefix_index + 1)))
