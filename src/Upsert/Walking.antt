-- ===== src/Upsert/Walking.antt =====
-- `update_value_and_subtrie_` and `upsert_` of depend/monad/category/mpt/trie.cpp.
use nomad_mpt.Prelude.{ℕ, ◌+◌, ◌-◌, ◌==◌, if◌then◌else◌, leb, get_or, take, drop, length}
use nomad_mpt.Prelude.{or_else, not, ◌&&◌, Option, none, some, List}
use nomad_mpt.Result.{Result, ok, ◌>>=◌, ◌>>◌, check}
use nomad_mpt.Update
use nomad_mpt.Update.{UpdateList, nil, cons, Requests, reset, Mask, branches, is_deletion}
use nomad_mpt.Update.{split_into_sublists, get_first_branch, get_first_path, is_empty, key}
use nomad_mpt.Node
use nomad_mpt.Node.{Node, node, Children, no_child, child, Slot, absent, erased, updated, kept}
use nomad_mpt.Node.{add, bump, next_at, path, children, create_node_from_children_if_any}
use nomad_mpt.Upsert.Base.{StateMachine, is_none, any, only}

module _ {S : Type 0} (sm : StateMachine S) where
  open sm use {down, is_variable_length}

  -- `update_value_and_subtrie_`
  unfoldable pub update_value_body :
      (S → Requests → List ℕ → ℕ → Option (List ℕ) → ℕ → Result (Option Node))
      → (S → Node → Requests → ℕ → List ℕ → Option (List ℕ) → ℕ → Result (Option Node))
      → S
      → Node
      → List ℕ
      → Update.Update
      → Result (Option Node)
  update_value_body from_requests dispatch s old path u =
      if is_deletion u
      then ok none
      else (split_into_sublists (Update.next u) 0 >>= λ (r, n).
          check (is_none r.opt_leaf)
          >> (if Update.incarnation u
              then from_requests s r path 0 (Update.value u) (Update.version u)
              else (check (leb (Node.version old) (Update.version u))
                  >> dispatch s old r 0 path (or_else (Update.value u) (Node.value old))
                      (Update.version u))))

  -- A round of the loop of `upsert_` that splits the updates: the old path ends, goes on along the one
  -- branch of the updates, or turns away. The path matched so far is `old`'s from `start` on.
  unfoldable pub split_body :
      (S → Node → UpdateList → ℕ → ℕ → ℕ → Result (Option Node))
      → (S → Node → Requests → ℕ → List ℕ → Option (List ℕ) → ℕ → Result (Option Node))
      → (S → Node → Requests → List ℕ → ℕ → ℕ → Result (Option Node))
      → S
      → Node
      → UpdateList
      → ℕ
      → ℕ
      → ℕ
      → Result (Option Node)
  split_body loop dispatch mismatch s old us prefix_index start old_prefix_index =
      let matched = take (old_prefix_index - start) (drop start (path old)) in
      let old_nibble = get_or (path old) old_prefix_index 0 in
      split_into_sublists us prefix_index >>= λ (r, n).
      check (any r.mask branches)
      >> (if old_prefix_index == length (path old)
          then (check (is_none r.opt_leaf)
              >> dispatch s old r prefix_index matched (Node.value old) (Node.version old))
          else (if n == 1 && get_first_branch r == old_nibble
              then loop (down s old_nibble) old (r.sublists old_nibble) (prefix_index + 1) start
                  (old_prefix_index + 1)
              else mismatch s old r matched old_prefix_index prefix_index))

  -- One round: the only update ends here, or the updates are split.
  unfoldable pub upsert_loop_body :
      (S → Node → UpdateList → ℕ → ℕ → ℕ → Result (Option Node))
      → (S → Node → List ℕ → Update.Update → Result (Option Node))
      → (S → Node → Requests → ℕ → List ℕ → Option (List ℕ) → ℕ → Result (Option Node))
      → (S → Node → Requests → List ℕ → ℕ → ℕ → Result (Option Node))
      → S
      → Node
      → UpdateList
      → ℕ
      → ℕ
      → ℕ
      → Result (Option Node)
  upsert_loop_body loop update_value dispatch mismatch s old us prefix_index start
        old_prefix_index =
      let split = split_body loop dispatch mismatch s old us prefix_index start old_prefix_index in
      elim (only us) [
        | none ↦ split
        | some u ↦
            if prefix_index == length (key u)
            then (check (length (path old) == old_prefix_index)
                >> (check (not (is_none (Node.value old)))
                    >> update_value s old (take (old_prefix_index - start) (drop start (path old)))
                        u))
            else split
      ]

  unfoldable pub upsert_body :
      (S → Node → UpdateList → ℕ → ℕ → ℕ → Result (Option Node))
      → S
      → Node
      → UpdateList
      → ℕ
      → ℕ
      → Result (Option Node)
  upsert_body loop s old us prefix_index old_prefix_index =
      check (not (is_empty us))
      >> (check (not (is_variable_length s))
          >> (check (not (old_prefix_index == 255))
              >> loop s old us prefix_index old_prefix_index old_prefix_index))
