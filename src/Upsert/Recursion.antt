-- ===== src/Upsert/Recursion.antt =====
-- depend/monad/category/mpt/trie.cpp: the functions of the insertion call each other.
use nomad_mpt.Prelude.{ℕ, zero, suc, if◌then◌else◌, length}
use nomad_mpt.Prelude.{Option, none, some, List}
use nomad_mpt.Result.{Result, stuck}
use nomad_mpt.Update
use nomad_mpt.Update.{UpdateList, nil, cons, Requests, reset, Mask, branches, is_deletion}
use nomad_mpt.Update.{split_into_sublists, get_first_branch, get_first_path, is_empty, key}
use nomad_mpt.Node
use nomad_mpt.Node.{Node, node, Children, no_child, child, Slot, absent, erased, updated, kept}
use nomad_mpt.Node.{add, bump, next_at, path, children, create_node_from_children_if_any}
use nomad_mpt.Upsert.Base.{StateMachine, descend}
use nomad_mpt.Upsert.New.{from_requests_body, create_body, create_loop_body}
use nomad_mpt.Upsert.Change.{dispatch_body, mismatch_body}
use nomad_mpt.Upsert.Walking.{update_value_body, upsert_loop_body, upsert_body}

module _ {S : Type 0} (sm : StateMachine S) where
  -- The recursion. Each call costs a unit of fuel.
  unfoldable mutual
    pub create_new_trie : ℕ → S → UpdateList → ℕ → Result (Option Node)
    create_new_trie zero s us p = stuck
    create_new_trie (suc f) s us p =
        create_body sm (create_loop f) (create_new_trie_from_requests f) s us p

    pub create_loop : ℕ → S → UpdateList → ℕ → ℕ → Result (Option Node)
    create_loop zero s us start p = stuck
    create_loop (suc f) s us start p =
        create_loop_body sm (create_loop f) (create_new_trie_from_requests f) s us start p

    pub create_new_trie_from_requests :
        ℕ → S → Requests → List ℕ → ℕ → Option (List ℕ) → ℕ → Result (Option Node)
    create_new_trie_from_requests zero s r path p leaf ver = stuck
    create_new_trie_from_requests (suc f) s r path p leaf ver =
        from_requests_body sm (create_new_trie f) s r path p leaf ver

    pub upsert_ : ℕ → S → Node → UpdateList → ℕ → ℕ → Result (Option Node)
    upsert_ zero s old us p q = stuck
    upsert_ (suc f) s old us p q = upsert_body sm (upsert_loop f) s old us p q

    pub upsert_loop : ℕ → S → Node → UpdateList → ℕ → ℕ → ℕ → Result (Option Node)
    upsert_loop zero s old us p start q = stuck
    upsert_loop (suc f) s old us p start q =
        upsert_loop_body sm (upsert_loop f) (update_value_and_subtrie f) (dispatch_updates f)
          (mismatch_handler f) s old us p start q

    pub update_value_and_subtrie : ℕ → S → Node → List ℕ → Update.Update → Result (Option Node)
    update_value_and_subtrie zero s old path u = stuck
    update_value_and_subtrie (suc f) s old path u =
        update_value_body sm (create_new_trie_from_requests f) (dispatch_updates f) s old path u

    pub dispatch_updates :
        ℕ → S → Node → Requests → ℕ → List ℕ → Option (List ℕ) → ℕ → Result (Option Node)
    dispatch_updates zero s old r p path leaf ver = stuck
    dispatch_updates (suc f) s old r p path leaf ver =
        dispatch_body sm (upsert_ f) (create_new_trie f) s old r p path leaf ver

    pub mismatch_handler : ℕ → S → Node → Requests → List ℕ → ℕ → ℕ → Result (Option Node)
    mismatch_handler zero s old r path q p = stuck
    mismatch_handler (suc f) s old r path q p =
        mismatch_body sm (upsert_ f) (create_new_trie f) s old r path q p

  -- `upsert`: on an old root, with updates or with none, and on no root.
  unfoldable pub upsert : ℕ → S → Option Node → UpdateList → Result (Option Node)
  upsert fuel s none us = create_new_trie fuel s us 0
  upsert fuel s (some old) us =
      if is_empty us
      then dispatch_updates fuel (descend sm s (path old)) old (reset 0) (length (path old))
          (path old) (Node.value old) (Node.version old)
      else upsert_ fuel s old us 0 0
