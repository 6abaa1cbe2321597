-- ===== src/Upsert/Base.antt =====
-- depend/monad/category/mpt/trie.cpp and mpt/state_machine.hpp: what the functions of the insertion
-- share.
use nomad_mpt.Prelude.{ℕ, if◌then◌else◌}
use nomad_mpt.Prelude.{Bool, true, false, Option, none, some, List, [], ◌∷◌}
use nomad_mpt.Result.{Result, ok, aborted, stuck, ◌>>=◌}
use nomad_mpt.Update
use nomad_mpt.Update.{UpdateList, nil, cons, Requests, reset, Mask, branches, is_deletion}
use nomad_mpt.Update.{split_into_sublists, get_first_branch, get_first_path, is_empty, key}
use nomad_mpt.Node.{Node, Children, no_child, Slot, erased, updated}
use nomad_mpt.Node.{add, bump}

-- What the recursion asks of the virtual `StateMachine`. `up(n)` undoes the last `n` calls of
-- `down`, so a caller goes on with the state that it had.
pub record StateMachine (S : Type 0) : Type 0 where
  pub down : S → ℕ → S
  pub is_variable_length : S → Bool

abbrev pub is_none {ℓ} : {A : Type ℓ} → Option A → Bool
is_none none = true
is_none (some a) = false

-- The loop over `NodeChildrenRange`: the children in ascending order, and the version.
unfoldable pub build : (ℕ → Result Slot) → List ℕ → ℕ → Result (Children × ℕ)
build slot [] ver = ok (no_child, ver)
build slot (b ∷ bs) ver =
    slot b >>= λ s. build slot bs (bump s ver) >>= λ (cs, ver'). ok (add b s cs, ver')

-- The entry that a finished recursion leaves, as a slot.
abbrev pub entry : Result (Option Node) → Result Slot
entry (ok none) = ok erased
entry (ok (some n)) = ok (updated n)
entry aborted = aborted
entry stuck = stuck

abbrev pub leaf_value : Option Update.Update → Option (List ℕ)
leaf_value none = none
leaf_value (some u) = Update.value u

abbrev pub leaf_version : Option Update.Update → ℕ
leaf_version none = 0
leaf_version (some u) = Update.version u

abbrev pub any : Mask → List ℕ → Bool
any mask [] = false
any mask (b ∷ bs) = if mask b then true else any mask bs

-- The only update of a list of one.
abbrev pub only : UpdateList → Option Update.Update
only nil = none
only (cons u nil) = some u
only (cons u (cons w us)) = none

-- `MONAD_ASSERT(node)` of `create_new_trie_from_requests_`
abbrev pub must : Option Node → Result (Option Node)
must none = aborted
must (some n) = ok (some n)

module _ {S : Type 0} (sm : StateMachine S) where
  -- `sm.down` along a path
  abbrev pub descend : S → List ℕ → S
  descend s [] = s
  descend s (x ∷ xs) = descend (sm.down s x) xs
