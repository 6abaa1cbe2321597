-- ===== src/Upsert/Laws.antt =====
-- The insertion into a trie makes the change that the updates mean: all the functions of the
-- recursion, by induction on the fuel.
use nomad_mpt.Prelude.{ℕ, zero, suc, ◌≡◌, refl, sym, ◌∙◌, arith}
use nomad_mpt.Prelude.{Option, none, some, List, [], ◌∷◌, All, length}
use nomad_mpt.Result.{ok}
use nomad_mpt.Update.{UpdateList, nil, cons, reset}
use nomad_mpt.Node
use nomad_mpt.Node.{Node, path, children}
use nomad_mpt.Lookup.{lookup_child, lookup_root, lookup_from, lookup_lem, strip, after, at_end}
use nomad_mpt.Apply.{apply, apply_in, IsTable}
use nomad_mpt.Upsert.Base.{StateMachine}
use nomad_mpt.Upsert.Change.{dispatch_body}
use nomad_mpt.Upsert.Recursion.{
  create_new_trie, upsert_, upsert_loop, update_value_and_subtrie, dispatch_updates,
}
use nomad_mpt.Upsert.Recursion.{mismatch_handler, upsert}
use nomad_mpt.Upsert.Tables.{IsTable-Table}
use nomad_mpt.Upsert.CreateLoop.{create_all}
use nomad_mpt.Upsert.Dispatch.{UpsertCorrect, dispatch_body_correct, mismatch_body_correct}
use nomad_mpt.Upsert.Walk.{
  DispatchCorrect, UpdateValueCorrect, update_value_body_correct, lookup_from_end, after-cong,
}
use nomad_mpt.Upsert.WalkLoop.{
  UpsertLoopCorrect, MismatchCorrect, upsert_loop_body_correct, upsert_body_correct,
}
use nomad_mpt.Nibbles.Bytes.{IsNibble}

module _ {S : Type 0} (sm : StateMachine S) where
  upsert_all :
      (f : ℕ)
      → UpsertCorrect (upsert_ sm f)
        × UpsertLoopCorrect (upsert_loop sm f)
        × UpdateValueCorrect (update_value_and_subtrie sm f)
        × DispatchCorrect (dispatch_updates sm f)
        × MismatchCorrect (mismatch_handler sm f)
  unfolding create_new_trie
  upsert_all zero = (
    λ s old us p q n res t le lq e. cc,
    λ s old us p start q n res t le st lq e. cc,
    λ s old path u n res en e. cc,
    λ s old us p n m path leaf ver res t h reads e. cc,
    λ s old us p q n path res t h lq e. cc,
  )
  upsert_all (suc f) =
      let (u, l, v, d, m) = upsert_all f in
      let (c, _, r) = create_all sm f in
      (
        upsert_body_correct sm (upsert_loop sm f) (update_value_and_subtrie sm f)
            (dispatch_updates sm f) (mismatch_handler sm f) l v d m,
        upsert_loop_body_correct sm (upsert_loop sm f) (update_value_and_subtrie sm f)
            (dispatch_updates sm f) (mismatch_handler sm f) l v d m,
        update_value_body_correct sm _ (dispatch_updates sm f) r d,
        dispatch_body_correct sm (upsert_ sm f) (create_new_trie sm f) u c,
        mismatch_body_correct sm (upsert_ sm f) (create_new_trie sm f) u c,
      )

  -- No function reads the `prefix_len` of the requests.
  any_prefix_len :
      (f : ℕ) (s : S) (old : Node) (i j p : ℕ) (path : List ℕ) (leaf : Option (List ℕ)) (ver : ℕ)
      → dispatch_updates sm f s old (reset i) p path leaf ver
        ≡ dispatch_updates sm f s old (reset j) p path leaf ver
  unfolding dispatch_updates dispatch_body
  any_prefix_len zero s old i j p path leaf ver = refl
  any_prefix_len (suc f) s old i j p path leaf ver = refl

  -- With no update `upsert` rebuilds the root from its children.
  rebuilt :
      (old : Node) (k : List ℕ)
      → after (strip (path old) k) (
          at_end (Node.value old) (λ b r.
            apply_in nil
              (length (path old))
              (lookup_from (length (path old)) old)
              (lookup_from (length (path old)) old (b ∷ r))
              (b ∷ r)))
        ≡ apply nil (lookup_root (some old)) k
  rebuilt old k =
      after-cong (strip (path old) k) _ (at_end (Node.value old) (lookup_child (children old)))
        inner
      ∙ sym (lookup_lem old k)
      ∙ unfold apply_in in refl
    where
      inner :
          (r : List ℕ)
          → at_end
              (Node.value old)
              (λ b r'.
                apply_in nil
                  (length (path old))
                  (lookup_from (length (path old)) old)
                  (lookup_from (length (path old)) old (b ∷ r'))
                  (b ∷ r'))
              r
            ≡ at_end (Node.value old) (lookup_child (children old)) r
      inner [] = refl
      inner (b ∷ r) = unfold apply_in in lookup_from_end old (b ∷ r)

  -- An insertion of the updates of a fixed-length table, whose keys have one positive length at each
  -- level and differ, that finishes without a failed assertion, where the debug assertion that a joined
  -- path has at most 255 nibbles counts as one, leaves the trie with the map which the updates make
  -- from the old trie's: a new trie where there was none, an old trie walked, split or cleared where
  -- there was one. The map is read at sequences of nibbles.
  pub upsert_lem :
      (f : ℕ) (s : S) (root : Option Node) (us : UpdateList) (n : ℕ) (res : Option Node)
      → IsTable n us
      → upsert sm f s root us ≡ ok res
      → (k : List ℕ) → All IsNibble k
      → lookup_root res k ≡ apply us (lookup_root root) k
  unfolding upsert
  upsert_lem f s none us n res t e k nk =
      (create_all sm f).0 s us 0 n res (IsTable-Table n us t) (omega arith) e k nk
  upsert_lem f s (some old) nil n res t e k nk =
      (upsert_all f).3 _ old nil (length (path old)) n (lookup_from (length (path old)) old)
        (path old) (Node.value old) (Node.version old) res (record { entries = tt; distinct = tt })
        tt (λ b r. lookup_from_end old (b ∷ r))
        (any_prefix_len f _ old (length (path old)) 0 (length (path old)) (path old)
            (Node.value old) (Node.version old)
          ∙ e)
        k nk
      ∙ rebuilt old k
  upsert_lem f s (some old) (cons u us) n res t e k nk =
      (upsert_all f).0 s old (cons u us) 0 0 n res (IsTable-Table n (cons u us) t) (omega arith)
        (omega arith) e k nk
      ∙ sym (λ i. apply_in (cons u us) 0 (λ k'. lookup_lem old k' i) (lookup_lem old k i) k)
