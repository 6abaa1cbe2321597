-- ===== src/Upsert/Total.antt =====
-- `upsert_` returns: walking an old trie with insertions of its shape fails no assertion and ends on
-- the fuel that the keys ask for.
use nomad_mpt.Prelude.{
  ℕ, suc, ◌+◌, ◌-◌, ◌<◌, ◌≤◌, ◌≡◌, subst, arith, true, false, Bool-cases, inl, inr,
}
use nomad_mpt.Prelude.{List, ◌==◌, ==→eq, ==_ne, length, get_or, take, drop, ◌&&◌}
use nomad_mpt.Update.{Update, UpdateList, nil, cons, key, is_empty, get_first_branch}
use nomad_mpt.Node
use nomad_mpt.Node.{
  Node, Slot, absent, kept, path, children, next_at, create_node_from_children_if_any,
}
use nomad_mpt.Apply.Split.{split, split_into_sublists-split}
use nomad_mpt.Apply.Masks.{split-IsSplit, masked_sublist, any_branch, get_first_branch_lem}
use nomad_mpt.Upsert.Base.{StateMachine}
use nomad_mpt.Upsert.Walking.{split_body, upsert_loop_body, upsert_body}
use nomad_mpt.Upsert.Tables.{Table-Reaches, Table-lengths, entry_nibble}
use nomad_mpt.Upsert.Walk.{Dispatcher, UpdateValue}
use nomad_mpt.Upsert.WalkLoop.{Looper, Mismatcher, two_go_on}
use nomad_mpt.Upsert.Shape.{
  Suits-small, Stands, Stands-fits, Stands-end, Stands-inner, Below, Stage, sublist-Stage,
  more-Stage,
}
use nomad_mpt.Upsert.Returns.{more-Short, length-take-le_count}
use nomad_mpt.Upsert.Ends.{Ends, UpsertEnds, UpdateEnds, DispatchEnds, MismatchEnds}

abbrev pub LoopEnds : ℕ → {S : Type 0} → ℕ → Looper S → Type 0
LoopEnds v {S} f loop =
    (s : S) (old : Node) (us : UpdateList) (p start q d n : ℕ) (ls : List ℕ)
    → Stage v (f + 1) p n ls us
    → is_empty us ≡ false
    → Stands v n ls d old
    → d + q ≡ p
    → p ≤ n
    → q ≤ length (path old)
    → start ≤ q
    → Ends (n - (d + start)) (loop s old us p start q)

module _ (v : ℕ) {S : Type 0} (sm : StateMachine S) (f : ℕ) (loop : Looper S)
    (update_value : UpdateValue S) (dispatch : Dispatcher S) (mismatch : Mismatcher S)
    (loop_ends : LoopEnds v f loop) (update_ends : UpdateEnds v f update_value)
    (dispatch_ends : DispatchEnds v f dispatch) (mismatch_ends : MismatchEnds v f mismatch) where
  split_body-Ends :
      (s : S) (old : Node) (u : Update) (us : UpdateList) (p start q d n : ℕ) (ls : List ℕ)
      → Stage v (suc f + 1) p n ls (cons u us)
      → Stands v n ls d old
      → d + q ≡ p
      → p < n
      → q ≤ length (path old)
      → start ≤ q
      → Ends (n - (d + start)) (split_body sm loop dispatch mismatch s old (cons u us) p start q)
  unfolding split_body
  split_body-Ends s old u us p start q d n ls g st at_p lt le from =
      let matched = length-take-le_count (q - start) (drop start (path old)) in
      let short = Suits-small v n ls u g.suited.0 in
      let l = n - (d + start) in
      let t = g.growing.table in
      let h = Table-Reaches p n (cons u us) t lt in
      let r = (split (cons u us) p).0 in
      let x = get_or (path old) q 0 in
      let m = take (q - start) (drop start (path old)) in
      let found = any_branch u us p (entry_nibble n p u t.entries.0 lt) in
      let split_ok = split_into_sublists-split (cons u us) p h in
      let bare = (split-IsSplit (cons u us) p).no_leaf in
      let fuel = g.growing.covered.0 in
      let g' = more-Stage v (suc f + 1) (f + 2) p n ls (cons u us) g (omega arith) in
      elim (Bool-cases (q == length (path old))) [
        | inl e ↦
            let same : d + length (path old) ≡ p = omega (arith, ==→eq _ _ e) in
            let below =
              subst (λ i. Below v n ls (i + 1) (children old)) same
                (Stands-inner v n d ls old st (omega arith)) in
            let (o, done, o_short) =
              dispatch_ends s old (cons u us) p n ls m (Node.value old) (Node.version old) l g' h
                (omega arith) below
                (inr (lt, omega (arith, matched, at_p, from, lt), omega (arith, short))) in
            (o, rw (split_ok, found, e, bare) done, o_short)
        | inr e ↦
            let within : q < length (path old) = omega (arith, ==_ne _ _ e) in
            elim (Bool-cases ((split (cons u us) p).1 == 1 && get_first_branch r == x)) [
              | inl y ↦
                  let first : get_first_branch r ≡ x = ground (arith, y) in
                  let masked : r.mask x ≡ true = rw (← first) (get_first_branch_lem r found) in
                  let (o, done, o_short) =
                    loop_ends (sm.down s x) old (r.sublists x) (p + 1) start (q + 1) d n ls
                      (sublist-Stage v (suc f + 1) (f + 1) p n x ls (cons u us) g lt (omega arith))
                      (masked_sublist (cons u us) p x masked) st (omega arith) (omega arith)
                      (omega arith) (omega (arith, from)) in
                  (o, rw (split_ok, found, e, y) done, o_short)
              | inr y ↦
                  let (o, done, o_short) =
                    mismatch_ends s old (cons u us) p q d n ls m l g' h (omega arith) st at_p within
                      (omega (arith, matched, at_p, from, lt)) (omega (arith, short)) in
                  (o, rw (split_ok, found, e, y) done, o_short)
            ]
      ]

  pub upsert_loop_body_ends :
      LoopEnds v (suc f) (upsert_loop_body sm loop update_value dispatch mismatch)
  unfolding upsert_loop_body
  upsert_loop_body_ends s old nil p start q d n ls g full st at_p pn le from = cc full
  upsert_loop_body_ends s old (cons u (cons w us)) p start q d n ls g full st at_p pn le from =
      split_body-Ends s old u (cons w us) p start q d n ls g st at_p
        (two_go_on u w us p n g.growing.table pn) le from
  upsert_loop_body_ends s old (cons u nil) p start q d n ls g full st at_p pn le from =
      let len = (Table-lengths p n (cons u nil) g.growing.table).0 in
      elim (Bool-cases (p == length (key u))) [
        | inl e ↦
            let fits = Stands-fits v n d ls old st in
            let ended : (length (path old) == q) ≡ true =
              ground (arith, fits, ==→eq _ _ e, len, at_p, le) in
            let end : n ≤ d + length (path old) = omega (arith, ==→eq _ _ e) in
            let (x, value) = Stands-end v n d ls old st end in
            let (o, done, o_short) =
              update_ends s old (take (q - start) (drop start (path old))) u d n ls st end
                g.suited.0 g.growing.table.entries.0 g.growing.inserts.0
                (omega (arith, g.growing.covered.0)) in
            let matched = length-take-le_count (q - start) (drop start (path old)) in
            (
              o,
              rw (e, ended, value) done,
              more-Short (length (take (q - start) (drop start (path old)))) (n - (d + start)) o
                  o_short (omega (arith, matched, ==→eq _ _ e, len, at_p, from)),
            )
        | inr e ↦ rw e (
            split_body-Ends s old u nil p start q d n ls g st at_p (omega (arith, ==_ne _ _ e)) le
              from)
      ]

  pub upsert_body_ends :
      ((s : S) → sm.is_variable_length s ≡ false) → UpsertEnds v (suc f) (upsert_body sm loop)
  unfolding upsert_body
  upsert_body_ends fixed s old nil p q d n ls g full st at_p pn le = cc full
  upsert_body_ends fixed s old (cons u us) p q d n ls g full st at_p pn le =
      let small : (q == 255) ≡ false = ground (arith, Suits-small v n ls u g.suited.0) in
      let (o, done, o_short) =
        loop_ends s old (cons u us) p q q d n ls
          (more-Stage v (suc f) (f + 1) p n ls (cons u us) g (omega arith)) full st at_p pn le
          (omega arith) in
      (
        o,
        rw (fixed s, small) done,
        more-Short (n - (d + q)) (n - p) o o_short (omega (arith, at_p)),
      )
