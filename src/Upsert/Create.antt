-- ===== src/Upsert/Create.antt =====
-- `create_new_trie_` builds the trie whose map the updates make from no keys.
use nomad_mpt.Prelude.{ℕ, ◌+◌, ◌<◌, ◌≤◌, ◌≡◌, refl, sym, ap, ◌∙◌, arith, true, false}
use nomad_mpt.Prelude.{Option, none, some, List, [], ◌∷◌, All, Bool-cases, inl, inr}
use nomad_mpt.Result.{Result, ok, aborted, stuck, >>=-eq-ok}
use nomad_mpt.Update.{UpdateList, nil, cons, is_empty}
use nomad_mpt.Update.{branches}
use nomad_mpt.Node.{Node, Children, Slot, absent, create_node_from_children_if_any}
use nomad_mpt.Lookup.{lookup_child, lookup_root, strip, after, at_end}
use nomad_mpt.Apply.{Map, no_keys, apply_in, AllUpdates}
use nomad_mpt.Apply.Split.{split, Reaches}
use nomad_mpt.Apply.Masks.{split-IsSplit}
use nomad_mpt.Upsert.Base.{StateMachine, entry, must, build}
use nomad_mpt.Upsert.New.{new_slot, from_requests_body}
use nomad_mpt.Upsert.Build.{slot_map, build-branches, lookup-create_node}
use nomad_mpt.Upsert.Tables.{Table, sublist-Table, sublist-apply_in, Table-lengths, strip-IsNibble}
use nomad_mpt.Nibbles.Bytes.{IsNibble}

-- An entry that a recursion finished.
pub entry-eq-ok :
    (r : Result (Option Node)) (s : Slot)
    → entry r ≡ ok s
    → (o : Option Node) × (r ≡ ok o) × ((k : List ℕ) → slot_map s k ≡ lookup_root o k)
entry-eq-ok (ok none) s h = (none, refl, λ k. ap (λ t. slot_value t k) (sym h))
  where
    slot_value : Result Slot → List ℕ → Option (List ℕ)
    slot_value (ok s) k = slot_map s k
    slot_value _ k = none
entry-eq-ok (ok (some n)) s h = (some n, refl, λ k. ap (λ t. slot_value t k) (sym h))
  where
    slot_value : Result Slot → List ℕ → Option (List ℕ)
    slot_value (ok s) k = slot_map s k
    slot_value _ k = none
entry-eq-ok aborted s h = cc
entry-eq-ok stuck s h = cc

must-eq-ok : (o : Option Node) (res : Option Node) → must o ≡ ok res → res ≡ o
must-eq-ok none res h = cc
must-eq-ok (some n) res h = cc

empty_sublist : (us : UpdateList) → is_empty us ≡ true → us ≡ nil
empty_sublist nil h = refl
empty_sublist (cons u us) h = cc

-- A branch that is not in the mask has no update.
pub unmasked_sublist :
    (us : UpdateList) (p b : ℕ) → (split us p).0.mask b ≡ false → (split us p).0.sublists b ≡ nil
unmasked_sublist us p b e = empty_sublist _ (ground (arith, (split-IsSplit us p).masked b, e))

-- Where a sublist is not empty the keys go on.
pub masked_lt :
    (us : UpdateList) (p n b : ℕ)
    → Table p n us
    → AllUpdates (Reaches p) us
    → (split us p).0.mask b ≡ true
    → p < n
masked_lt nil p n b t h m = cc
masked_lt (cons u us) p n b t h m = omega (arith, h.0, (Table-lengths p n (cons u us) t).0)

-- Below a branch with no sublist nothing changes.
pub unmasked :
    (us : UpdateList) (p n b : ℕ) (m : Map) (old : Option (List ℕ)) (k : List ℕ)
    → Table p n us
    → AllUpdates (Reaches p) us
    → (split us p).0.mask b ≡ false
    → apply_in us p m old (b ∷ k) ≡ old
unmasked us p n b m old k t h e =
    sym (sublist-apply_in us p n b m old k t h)
    ∙ rw (unmasked_sublist us p b e) (unfold apply_in in refl)

-- A function of the recursion that is given a table and finishes has made the table's map.
abbrev pub CreateCorrect : {S : Type 0} → (S → UpdateList → ℕ → Result (Option Node)) → Type 0
CreateCorrect {S} create =
    (s : S) (us : UpdateList) (p n : ℕ) (res : Option Node)
    → Table p n us
    → p ≤ n
    → create s us p ≡ ok res
    → (k : List ℕ) → All IsNibble k
    → lookup_root res k ≡ apply_in us p no_keys none k

module _ {S : Type 0} (sm : StateMachine S) (create : S → UpdateList → ℕ → Result (Option Node))
    (correct : CreateCorrect create) where
  new_slot_correct :
      (s : S) (us : UpdateList) (p n b : ℕ) (slot : Slot)
      → Table p n us
      → AllUpdates (Reaches p) us
      → new_slot sm create s (split us p).0 p b ≡ ok slot
      → (k : List ℕ) → All IsNibble k
      → slot_map slot k ≡ apply_in us p no_keys none (b ∷ k)
  new_slot_correct s us p n b slot t h e k nk = elim (Bool-cases ((split us p).0.mask b)) [
    | inl m ↦
        let lt = masked_lt us p n b t h m in
        let (o, made, same) =
          entry-eq-ok (create (sm.down s b) ((split us p).0.sublists b) (p + 1)) slot (rw m at e) in
        same k
        ∙ correct (sm.down s b) _ (p + 1) n o (sublist-Table p n b us t lt) (omega arith) made k nk
        ∙ sublist-apply_in us p n b no_keys none k t h
    | inr m ↦
        let void : slot ≡ absent = cc (rw m at e) in
        rw void (sym (unmasked us p n b no_keys none k t h m))
  ]

  -- The children, the leaf and the path, where the requests are a split.
  pub from_requests_body_correct :
      (s : S) (us : UpdateList) (path : List ℕ) (p n : ℕ) (leaf : Option (List ℕ)) (ver : ℕ)
      (res : Option Node)
      → Table p n us
      → AllUpdates (Reaches p) us
      → from_requests_body sm create s (split us p).0 path p leaf ver ≡ ok res
      → (k : List ℕ) → All IsNibble k
      → lookup_root res k
        ≡ after (strip path k) (at_end leaf (λ b r. apply_in us p no_keys none (b ∷ r)))
  unfolding from_requests_body
  from_requests_body_correct s us path p n leaf ver res t h e k nk =
      let ((cs, ver'), built, made) =
        >>=-eq-ok (build (new_slot sm create s (split us p).0 p) branches ver) _ e in
      let (x, node_made, some_node) =
        >>=-eq-ok (create_node_from_children_if_any cs path leaf ver') _ made in
      rw (must-eq-ok x res some_node) (
        lookup-create_node cs path leaf ver' x k node_made
        ∙ below (strip path k) (λ r q. strip-IsNibble path k q nk) cs ver' built)
    where
      child_at :
          (cs : Children) (ver' : ℕ)
          → build (new_slot sm create s (split us p).0 p) branches ver ≡ ok (cs, ver')
          → (b : ℕ) (r : List ℕ) → IsNibble b
          → All IsNibble r
          → lookup_child cs b r ≡ apply_in us p no_keys none (b ∷ r)
      child_at cs ver' built b r nb nr =
          let (slot, at_b, same) =
            build-branches (new_slot sm create s (split us p).0 p) ver cs ver' built b nb in
          same r ∙ new_slot_correct s us p n b slot t h at_b r nr

      below :
          (o : Option (List ℕ))
          → ((r : List ℕ) → o ≡ some r → All IsNibble r)
          → (cs : Children) (ver' : ℕ)
          → build (new_slot sm create s (split us p).0 p) branches ver ≡ ok (cs, ver')
          → after o (at_end leaf (lookup_child cs))
            ≡ after o (at_end leaf (λ b r. apply_in us p no_keys none (b ∷ r)))
      below none f cs ver' built = refl
      below (some []) f cs ver' built = refl
      below (some (b ∷ r)) f cs ver' built =
          let nr = f (b ∷ r) refl in child_at cs ver' built b r nr.0 nr.1
