-- ===== src/Upsert/Walk.antt =====
-- `upsert_`, its loop and `update_value_and_subtrie_`, given that the functions which they call are
-- correct.
use nomad_mpt.Prelude.{ℕ, ◌≡◌, refl, sym, ap, ◌∙◌, arith, true, false, or_else}
use nomad_mpt.Prelude.{Option, none, some, List, [], ◌∷◌, length, All, Bool-cases, inl, inr}
use nomad_mpt.Prelude.{leb, drop_all}
use nomad_mpt.Result.{Result, ok, check-eq-ok}
use nomad_mpt.Update
use nomad_mpt.Update.{
  Update, update, UpdateList, nil, cons, key, next, incarnation, is_empty, is_deletion, Requests,
}
use nomad_mpt.Update.{split_into_sublists, get_first_branch, branches, Mask}
use nomad_mpt.Node
use nomad_mpt.Node.{Node, path, children}
use nomad_mpt.Lookup.{lookup_child, lookup_root, lookup_from, strip, after, at_end}
use nomad_mpt.Apply.{Map, no_keys, apply_in, apply_one, AllUpdates, IsEntry}
use nomad_mpt.Apply.Split.{split, Reaches}
use nomad_mpt.Upsert.Base.{StateMachine, is_none}
use nomad_mpt.Upsert.Walking.{update_value_body}
use nomad_mpt.Upsert.Tables.{Table, IsTable-Table, IsTable-Reaches}
use nomad_mpt.Upsert.Tables.{entry_next}
use nomad_mpt.Upsert.CreateLoop.{FromRequests, FromRequestsCorrect, split-eq-ok}
use nomad_mpt.Nibbles.Bytes.{IsNibble}

abbrev pub Dispatcher : Type 0 → Type 0
Dispatcher S = S → Node → Requests → ℕ → List ℕ → Option (List ℕ) → ℕ → Result (Option Node)

abbrev pub DispatchCorrect : {S : Type 0} → Dispatcher S → Type 0
DispatchCorrect {S} dispatch =
    (s : S) (old : Node) (us : UpdateList) (p n : ℕ) (m : Map) (path : List ℕ)
    (leaf : Option (List ℕ)) (ver : ℕ) (res : Option Node)
    → Table p n us
    → AllUpdates (Reaches p) us
    → ((b : ℕ) (k : List ℕ) → m (b ∷ k) ≡ lookup_child (children old) b k)
    → dispatch s old (split us p).0 p path leaf ver ≡ ok res
    → (k : List ℕ) → All IsNibble k
    → lookup_root res k
      ≡ after (strip path k) (at_end leaf (λ b r. apply_in us p m (m (b ∷ r)) (b ∷ r)))

abbrev pub UpdateValue : Type 0 → Type 0
UpdateValue S = S → Node → List ℕ → Update → Result (Option Node)

-- The value and the subtrie of a key that the old node ends.
abbrev pub UpdateValueCorrect : {S : Type 0} → UpdateValue S → Type 0
UpdateValueCorrect {S} update_value =
    (s : S) (old : Node) (path : List ℕ) (u : Update) (n : ℕ) (res : Option Node)
    → IsEntry n u
    → update_value s old path u ≡ ok res
    → (k : List ℕ) → All IsNibble k
    → lookup_root res k
      ≡ after (strip path k) (apply_one u (lookup_from (length (Node.path old)) old))

-- The three kinds of update.
apply_one-deletion :
    (u : Update) (m : Map) (r : List ℕ) → is_deletion u ≡ true → apply_one u m r ≡ none
unfolding apply_one
apply_one-deletion (update k (some v) inc l ver) m r e = cc
apply_one-deletion (update k none inc nil ver) m r e = refl
apply_one-deletion (update k none inc (cons w l) ver) m r e = cc

apply_one-incarnation :
    (u : Update) (m : Map) (r : List ℕ)
    → is_deletion u ≡ false
    → incarnation u ≡ true
    → apply_one u m r
      ≡ at_end (Update.value u) (λ b r'. apply_in (next u) 0 no_keys none (b ∷ r')) r
unfolding apply_one
apply_one-incarnation (update k v false l ver) m r d e = cc
apply_one-incarnation (update k none true nil ver) m r d e = cc
apply_one-incarnation (update k none true (cons w l) ver) m [] d e = refl
apply_one-incarnation (update k none true (cons w l) ver) m (b ∷ r) d e = refl
apply_one-incarnation (update k (some v) true l ver) m [] d e = refl
apply_one-incarnation (update k (some v) true l ver) m (b ∷ r) d e = refl

apply_one-update :
    (u : Update) (m : Map) (r : List ℕ)
    → is_deletion u ≡ false
    → incarnation u ≡ false
    → apply_one u m r
      ≡ at_end
          (or_else (Update.value u) (m []))
          (λ b r'. apply_in (next u) 0 m (m (b ∷ r')) (b ∷ r'))
          r
unfolding apply_one
apply_one-update (update k v true l ver) m r d e = cc
apply_one-update (update k none false nil ver) m r d e = cc
apply_one-update (update k none false (cons w l) ver) m [] d e = refl
apply_one-update (update k none false (cons w l) ver) m (b ∷ r) d e = refl
apply_one-update (update k (some v) false l ver) m [] d e = refl
apply_one-update (update k (some v) false l ver) m (b ∷ r) d e = refl

pub after-cong :
    (o : Option (List ℕ)) (f g : List ℕ → Option (List ℕ))
    → ((r : List ℕ) → f r ≡ g r)
    → after o f ≡ after o g
after-cong none f g h = refl
after-cong (some r) f g h = h r

-- At the end of the old path.
pub lookup_from_end :
    (old : Node) (r : List ℕ)
    → lookup_from (length (path old)) old r
      ≡ at_end (Node.value old) (lookup_child (children old)) r
lookup_from_end old r = rw (drop_all (path old) (length (path old)) (omega arith))

module _ {S : Type 0} (sm : StateMachine S) (from_requests : FromRequests S)
    (dispatch : Dispatcher S) (from_correct : FromRequestsCorrect from_requests)
    (dispatch_correct : DispatchCorrect dispatch) where
  pub update_value_body_correct : UpdateValueCorrect (update_value_body sm from_requests dispatch)
  unfolding update_value_body
  update_value_body_correct s old p u n res en e k nk = elim (Bool-cases (is_deletion u)) [
    | inl d ↦
        let is : res ≡ none = cc (rw d at e) in
        rw is (nowhere (strip p k) (λ r. apply_one-deletion u m r d))
    | inr d ↦
        let (l, tl) = entry_next n u en in
        let reaches = IsTable-Reaches l (next u) tl in
        let e1 = split-eq-ok (next u) 0 _ reaches (rw d at e) in
        let (_, e2) = check-eq-ok (is_none (split (next u) 0).0.opt_leaf) _ e1 in
        elim (Bool-cases (incarnation u)) [
          | inl i ↦
              from_correct s (next u) p 0 l (Update.value u) (Update.version u) res
                (IsTable-Table l (next u) tl) reaches (rw i at e2) k nk
              ∙ after-cong (strip p k) _ (apply_one u m)
                  (λ r. sym (apply_one-incarnation u m r d i))
          | inr i ↦
              let (_, e3) =
                check-eq-ok (leb (Node.version old) (Update.version u)) _ (rw i at e2) in
              dispatch_correct s old (next u) 0 l m p (or_else (Update.value u) (Node.value old))
                (Update.version u) res (IsTable-Table l (next u) tl) reaches
                (λ b r. lookup_from_end old (b ∷ r)) e3 k nk
              ∙ after-cong (strip p k) _ (apply_one u m) (λ r.
                ap
                  (λ v.
                    at_end (or_else (Update.value u) v)
                      (λ b r'. apply_in (next u) 0 m (m (b ∷ r')) (b ∷ r')) r)
                  (sym (lookup_from_end old []))
                ∙ sym (apply_one-update u m r d i))
        ]
  ]
    where
      m : Map
      m = lookup_from (length (Node.path old)) old

      nowhere :
          (o : Option (List ℕ))
          → ((r : List ℕ) → apply_one u m r ≡ none)
          → none ≡ after o (apply_one u m)
      nowhere none h = refl
      nowhere (some r) h = sym (h r)
