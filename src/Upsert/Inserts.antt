-- ===== src/Upsert/Inserts.antt =====
-- `create_new_trie_` returns: a table of insertions makes a trie, without a failed assertion and on
-- the fuel that its keys ask for.
use nomad_mpt.Prelude.{
  ℕ, zero, suc, ◌+◌, ◌-◌, ◌<◌, ◌≤◌, ◌≡◌, refl, arith, false, Bool-cases, inl, inr, none, some,
}
use nomad_mpt.Prelude.{Option, List, ltb, lt→ltb, ltb→lt, take, drop, All, length-drop}
use nomad_mpt.Result.{Result, ok}
use nomad_mpt.Update
use nomad_mpt.Update.{
  update, UpdateList, nil, cons, key, next, size, is_empty, Requests, get_first_branch,
  get_first_path, branches,
}
use nomad_mpt.Node.{Node}
use nomad_mpt.Lookup.{lookup_root}
use nomad_mpt.Apply.{IsTable, apply, no_keys}
use nomad_mpt.Apply.Split.{split, split_into_sublists-split}
use nomad_mpt.Apply.Masks.{split-IsSplit, split_pos, first_branch}
use nomad_mpt.Upsert.Base.{StateMachine, leaf_value, leaf_version, descend}
use nomad_mpt.Upsert.New.{create_body, create_loop_body}
use nomad_mpt.Upsert.Recursion.{create_new_trie, create_loop, create_new_trie_from_requests}
use nomad_mpt.Upsert.Tables.{
  Table, Table-lengths, IsTable-Table, IsTable-Reaches, Table-Reaches, entry_next, entry_nibble,
}
use nomad_mpt.Upsert.CreateLoop.{FromRequests, create_all}
use nomad_mpt.Upsert.WalkLoop.{two_go_on}
use nomad_mpt.Upsert.Grow.{
  AreInserts, fuel_for, Growing, start-Growing, next-Growing, more-Growing, sublist-Growing,
  insert_value, one_branch_size,
}
use nomad_mpt.Nibbles.Bytes.{IsNibble}
use nomad_mpt.Upsert.Returns.{
  length-take-le_count, CreateReturns, FromReturns, LoopReturns, from_requests_body_returns,
}

module _ {S : Type 0} (sm : StateMachine S) (fixed : (s : S) → sm.is_variable_length s ≡ false)
    (f : ℕ) (loop : S → UpdateList → ℕ → ℕ → Result (Option Node)) (from_requests : FromRequests S)
    (loop_returns : LoopReturns f loop) (from_returns : FromReturns f from_requests) where
  create_body_returns : CreateReturns (suc f) (create_body sm loop from_requests)
  unfolding create_body
  create_body_returns s nil p n g le pos = (none, refl, (λ e. cc), tt)
  create_body_returns s (cons u nil) p n g le pos =
      let s' = descend sm s (drop p (key u)) in
      let (m, t) = entry_next n u g.table.entries.0 in
      let (v, leaf) = insert_value u g.inserts.0 in
      let covered = g.covered.0 in
      let len = (Table-lengths p n (cons u nil) g.table).0 in
      let (x, e, same) =
        from_returns s' (next u) (drop p (key u)) 0 m (Update.value u) (Update.version u)
          (next-Growing f p m u (IsTable-Table m (next u) t) g.inserts.0 covered)
          (IsTable-Reaches m (next u) t) (omega arith) (inr (rw leaf)) in
      (
        some x,
        rw
            (
              fixed s',
              split_into_sublists-split (next u) 0 (IsTable-Reaches m (next u) t),
              (split-IsSplit (next u) 0).no_leaf,
            )
            e,
        (λ z. refl),
        rw same (omega (arith, length-drop p (key u), len)),
      )
  create_body_returns s (cons u (cons w us)) p n g le pos =
      let (x, e, short) =
        loop_returns s (cons u (cons w us)) p p n
          (more-Growing (suc f) (f + 1) p n _ g (omega arith)) (omega arith)
          (two_go_on u w us p n g.table le) (omega arith) in
      (some x, e, (λ z. refl), short)

  -- A list of two updates that goes on to one branch goes on further.
  further : (us : UpdateList) (p n : ℕ) → Table p n us → p ≤ n → 2 ≤ size us → p < n
  further nil p n t le two = absurd (omega arith)
  further (cons u nil) p n t le two = absurd (omega arith)
  further (cons u (cons w us)) p n t le two = two_go_on u w us p n t le

  create_loop_body_returns : LoopReturns (suc f) (create_loop_body sm loop from_requests)
  unfolding create_loop_body
  create_loop_body_returns s nil start p n g st lt two = absurd (omega arith)
  create_loop_body_returns s (cons u us) start p n g st lt two =
      let h = Table-Reaches p n (cons u us) g.table lt in
      let r = (split (cons u us) p).0 in
      let b = get_first_branch r in
      let bare = (split-IsSplit (cons u us) p).no_leaf in
      let pos = lt→ltb _ _ (split_pos u us p) in
      let covered = g.covered.0 in
      elim (Bool-cases (ltb 1 (split (cons u us) p).1)) [
        | inl many ↦
            let (x, e, same) =
              from_returns s (cons u us) (take (p - start) (drop start (get_first_path r))) p n
                (leaf_value r.opt_leaf) (leaf_version r.opt_leaf)
                (more-Growing (suc f + 1) (f + 2) p n _ g (omega arith)) h (omega arith)
                (inl (ltb→lt _ _ many)) in
            (
              x,
              rw (split_into_sublists-split (cons u us) p h, pos, bare, many) (rw bare at e),
              rw same (
                  omega (
                    arith,
                    st,
                    lt,
                    length-take-le_count (p - start) (drop start (get_first_path r)),
                  )),
            )
        | inr few ↦
            let one : (split (cons u us) p).1 ≡ 1 = ground (arith, split_pos u us p) in
            let m = first_branch u us p (entry_nibble n p u g.table.entries.0 lt) in
            let same = one_branch_size (cons u us) p b one m in
            let g' = sublist-Growing (suc f + 1) (f + 1) p n b (cons u us) g lt (omega arith) in
            let (x, e, short) =
              loop_returns (sm.down s b) (r.sublists b) start (p + 1) n g' (omega (arith, st))
                (further (r.sublists b) (p + 1) n g'.table (omega arith) (omega (arith, same)))
                (omega (arith, same)) in
            (x, rw (split_into_sublists-split (cons u us) p h, pos, bare, few) e, short)
      ]

module _ {S : Type 0} (sm : StateMachine S)
    (fixed : (s : S) → sm.is_variable_length s ≡ false) where
  pub all_return :
      (f : ℕ)
      → CreateReturns f (create_new_trie sm f)
        × LoopReturns f (create_loop sm f)
        × FromReturns f (create_new_trie_from_requests sm f)
  unfolding create_new_trie
  all_return zero = (
    λ s us p n g le pos. absurd (omega arith),
    λ s us start p n g st lt two. absurd (no_fuel us p n g two),
    λ s us path p n leaf ver g h pos full. absurd (omega arith),
  )
    where
      no_fuel : (us : UpdateList) (p n : ℕ) → Growing 1 p n us → 2 ≤ size us → ⊥
      no_fuel nil p n g two = omega arith
      no_fuel (cons u us) p n g two = omega (arith, g.covered.0)
  all_return (suc f) =
      let (c, l, r) = all_return f in
      (
        create_body_returns sm fixed f (create_loop sm f) (create_new_trie_from_requests sm f) l r,
        create_loop_body_returns sm fixed f (create_loop sm f) (create_new_trie_from_requests sm f)
            l r,
        from_requests_body_returns sm f (create_new_trie sm f) c,
      )

  -- Where the state machine is nowhere of variable length: given the updates of a fixed-length table
  -- that all set a value, as do those nested in them, whose keys have one positive length at each
  -- level and differ, on fuel `fuel_for us` or more `create_new_trie_` passes all its assertions and
  -- returns a trie whose map is the one that the updates make from no keys, read at sequences of
  -- nibbles.
  pub create_new_trie_lem :
      (f : ℕ) (s : S) (us : UpdateList) (n : ℕ)
      → IsTable n us
      → AreInserts us
      → fuel_for us ≤ f
      → (o : Option Node) × (create_new_trie sm f s us 0 ≡ ok o)
        × ((k : List ℕ) → All IsNibble k → lookup_root o k ≡ apply us no_keys k)
  create_new_trie_lem f s us n t i le =
      let (o, e, _, _) =
        (all_return f).0 s us 0 n (start-Growing f n us (IsTable-Table n us t) i le) (omega arith)
          (some_fuel us le) in
      (o, e, λ k nk. (create_all sm f).0 s us 0 n o (IsTable-Table n us t) (omega arith) e k nk)
    where
      some_fuel : (us : UpdateList) → fuel_for us ≤ f → 1 ≤ f
      some_fuel nil h = omega arith
      some_fuel (cons (update k v inc l ver) us) h = omega arith
