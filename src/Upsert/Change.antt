-- ===== src/Upsert/Change.antt =====
-- `dispatch_updates_impl_` and `mismatch_handler_` of depend/monad/category/mpt/trie.cpp.
use nomad_mpt.Prelude.{ℕ, ◌+◌, ◌==◌, if◌then◌else◌, get_or, drop}
use nomad_mpt.Prelude.{Option, none, some, List}
use nomad_mpt.Result.{Result, ok, ◌>>=◌}
use nomad_mpt.Update.{UpdateList, Requests, branches}
use nomad_mpt.Node
use nomad_mpt.Node.{Node, node, Children, no_child, child, Slot, absent, erased, updated, kept}
use nomad_mpt.Node.{add, bump, next_at, path, children, create_node_from_children_if_any}
use nomad_mpt.Upsert.Base.{StateMachine, build, entry}

module _ {S : Type 0} (sm : StateMachine S) where
  open sm use {down}

  -- The child of an updated node at one branch.
  abbrev pub dispatch_slot :
      (S → Node → UpdateList → ℕ → ℕ → Result (Option Node))
      → (S → UpdateList → ℕ → Result (Option Node))
      → S
      → Node
      → Requests
      → ℕ
      → ℕ
      → Result Slot
  dispatch_slot upsert create s old r prefix_index b =
      if r.mask b
      then elim (next_at b (children old)) [
        | none ↦ entry (create (down s b) (r.sublists b) (prefix_index + 1))
        | some c ↦ entry (upsert (down s b) c (r.sublists b) (prefix_index + 1) 0)
      ]
      else elim (next_at b (children old)) [ none ↦ ok absent | some c ↦ ok (kept c) ]

  unfoldable pub dispatch_body :
      (S → Node → UpdateList → ℕ → ℕ → Result (Option Node))
      → (S → UpdateList → ℕ → Result (Option Node))
      → S
      → Node
      → Requests
      → ℕ
      → List ℕ
      → Option (List ℕ)
      → ℕ
      → Result (Option Node)
  dispatch_body upsert create s old r prefix_index path leaf ver =
      build (dispatch_slot upsert create s old r prefix_index) branches ver >>= λ (cs, ver').
      create_node_from_children_if_any cs path leaf ver'

  -- The child at one branch where the path of `old` is split at `old_prefix_index`.
  abbrev pub mismatch_slot :
      (S → Node → UpdateList → ℕ → ℕ → Result (Option Node))
      → (S → UpdateList → ℕ → Result (Option Node))
      → S
      → Node
      → Requests
      → ℕ
      → ℕ
      → ℕ
      → Result Slot
  mismatch_slot upsert create s old r old_prefix_index prefix_index b =
      let at_old = b == get_or (path old) old_prefix_index 0 in
      if r.mask b
      then (if at_old
          then entry
              (upsert (down s b) old (r.sublists b) (prefix_index + 1) (old_prefix_index + 1))
          else entry (create (down s b) (r.sublists b) (prefix_index + 1)))
      else (if at_old
          then ok (
              kept (
                node (drop (old_prefix_index + 1) (path old)) (Node.value old) (Node.version old)
                  (children old)))
          else ok absent)

  unfoldable pub mismatch_body :
      (S → Node → UpdateList → ℕ → ℕ → Result (Option Node))
      → (S → UpdateList → ℕ → Result (Option Node))
      → S
      → Node
      → Requests
      → List ℕ
      → ℕ
      → ℕ
      → Result (Option Node)
  mismatch_body upsert create s old r path old_prefix_index prefix_index =
      build (mismatch_slot upsert create s old r old_prefix_index prefix_index) branches 0
      >>= λ (cs, ver). create_node_from_children_if_any cs path none ver
