-- ===== src/Upsert/Dispatch.antt =====
-- `dispatch_updates_impl_` and `mismatch_handler_`, given that the functions which they call are
-- correct: the children of the new node have the changed map below each branch.
use nomad_mpt.Prelude.{ℕ, ◌+◌, ◌<◌, ◌≤◌, ◌≡◌, refl, sym, ◌∙◌, arith, true, false}
use nomad_mpt.Prelude.{
  Option, none, some, List, [], ◌∷◌, drop, length, All, get_or, Bool-cases, Option-cases, inl, inr,
}
use nomad_mpt.Prelude.{◌==◌, if◌then◌else◌, drop-get_or}
use nomad_mpt.Result.{Result, ok, >>=-eq-ok}
use nomad_mpt.Update.{UpdateList, branches}
use nomad_mpt.Node.{
  Node, node, Children, Slot, absent, erased, updated, kept, path, children, next_at,
  create_node_from_children_if_any,
}
use nomad_mpt.Node
use nomad_mpt.Lookup.{
  lookup_child, lookup_root, lookup_from, lookup_lem, lookup_child-next_at, strip, after, at_end,
}
use nomad_mpt.Apply.{Map, no_keys, apply_in, AllUpdates}
use nomad_mpt.Apply.Split.{split, Reaches}
use nomad_mpt.Upsert.Base.{StateMachine, entry, build}
use nomad_mpt.Upsert.Change.{dispatch_slot, dispatch_body, mismatch_slot, mismatch_body}
use nomad_mpt.Upsert.Build.{slot_map, build-branches, lookup-create_node}
use nomad_mpt.Upsert.Tables.{Table, sublist-Table, sublist-apply_in, strip-IsNibble}
use nomad_mpt.Upsert.Create.{CreateCorrect, entry-eq-ok, masked_lt, unmasked}
use nomad_mpt.Nibbles.Bytes.{IsNibble}

abbrev pub Upserter : Type 0 → Type 0
Upserter S = S → Node → UpdateList → ℕ → ℕ → Result (Option Node)

abbrev pub UpsertCorrect : {S : Type 0} → Upserter S → Type 0
UpsertCorrect {S} upsert =
    (s : S) (old : Node) (us : UpdateList) (p q n : ℕ) (res : Option Node)
    → Table p n us
    → p ≤ n
    → q ≤ length (path old)
    → upsert s old us p q ≡ ok res
    → (k : List ℕ) → All IsNibble k
    → lookup_root res k ≡ apply_in us p (lookup_from q old) (lookup_from q old k) k

-- A slot at branch `b` is right if it has the changed map below the branch.
abbrev SlotCorrect : UpdateList → ℕ → Map → ℕ → Slot → Type 0
SlotCorrect us p m b slot =
    (k : List ℕ) → All IsNibble k → slot_map slot k ≡ apply_in us p m (m (b ∷ k)) (b ∷ k)

-- A loop over the branches whose slots are all right makes a node with the changed map.
build_correct :
    (f : ℕ → Result Slot) (us : UpdateList) (p : ℕ) (m : Map) (path : List ℕ)
    (leaf : Option (List ℕ)) (v v' : ℕ) (cs : Children) (ver : ℕ)
    → ((b : ℕ) (slot : Slot) → f b ≡ ok slot → SlotCorrect us p m b slot)
    → build f branches v ≡ ok (cs, v')
    → (made : Option Node) → create_node_from_children_if_any cs path leaf ver ≡ ok made
    → (k : List ℕ) → All IsNibble k
    → lookup_root made k
      ≡ after (strip path k) (at_end leaf (λ b r. apply_in us p m (m (b ∷ r)) (b ∷ r)))
build_correct f us p m path leaf v v' cs ver correct built made e k nk =
    lookup-create_node cs path leaf ver made k e
    ∙ below (strip path k) (λ r q. strip-IsNibble path k q nk)
  where
    at_branch :
        (b : ℕ) (r : List ℕ)
        → IsNibble b
        → All IsNibble r
        → lookup_child cs b r ≡ apply_in us p m (m (b ∷ r)) (b ∷ r)
    at_branch b r nb nr =
        let (slot, is, same) = build-branches f v cs v' built b nb in
        same r ∙ correct b slot is r nr

    below :
        (o : Option (List ℕ))
        → ((r : List ℕ) → o ≡ some r → All IsNibble r)
        → after o (at_end leaf (lookup_child cs))
          ≡ after o (at_end leaf (λ b r. apply_in us p m (m (b ∷ r)) (b ∷ r)))
    below none g = refl
    below (some []) g = refl
    below (some (b ∷ r)) g = let nr = g (b ∷ r) refl in at_branch b r nr.0 nr.1

-- The sublist of a branch changes the map below the branch as the whole list does.
pub below_branch :
    (us : UpdateList) (p n b : ℕ) (m g : Map) (k : List ℕ)
    → Table p n us
    → AllUpdates (Reaches p) us
    → ((k' : List ℕ) → m (b ∷ k') ≡ g k')
    → apply_in ((split us p).0.sublists b) (p + 1) g (g k) k ≡ apply_in us p m (m (b ∷ k)) (b ∷ k)
below_branch us p n b m g k t h e =
    sym (λ i. apply_in ((split us p).0.sublists b) (p + 1) (λ k'. e k' i) (e k i) k)
    ∙ sublist-apply_in us p n b m (m (b ∷ k)) k t h

-- The map below the first `q` nibbles of the old path, at the nibble `x` that follows.
pub lookup_from-next :
    (old : Node) (q b : ℕ) (k : List ℕ)
    → q < length (path old)
    → lookup_from q old (b ∷ k)
      ≡ (if b == get_or (path old) q 0 then lookup_from (q + 1) old k else none)
lookup_from-next old q b k h = rw (drop-get_or (path old) q 0 h) (ground arith)

module _ {S : Type 0} (sm : StateMachine S) (upsert : Upserter S)
    (create : S → UpdateList → ℕ → Result (Option Node)) (upsert_correct : UpsertCorrect upsert)
    (create_correct : CreateCorrect create) where
  -- The two kinds of call, where the map below the branch is known.
  created :
      (s : S) (us : UpdateList) (p n b : ℕ) (m : Map) (slot : Slot)
      → Table p n us
      → AllUpdates (Reaches p) us
      → (split us p).0.mask b ≡ true
      → ((k : List ℕ) → m (b ∷ k) ≡ none)
      → entry (create s ((split us p).0.sublists b) (p + 1)) ≡ ok slot
      → SlotCorrect us p m b slot
  created s us p n b m slot t h mb gone e k nk =
      let lt = masked_lt us p n b t h mb in
      let (o, made, same) = entry-eq-ok (create s ((split us p).0.sublists b) (p + 1)) slot e in
      same k
      ∙ create_correct s _ (p + 1) n o (sublist-Table p n b us t lt) (omega arith) made k nk
      ∙ below_branch us p n b m no_keys k t h gone

  upserted :
      (s : S) (us : UpdateList) (p q n b : ℕ) (m : Map) (old : Node) (slot : Slot)
      → Table p n us
      → AllUpdates (Reaches p) us
      → (split us p).0.mask b ≡ true
      → q ≤ length (path old)
      → ((k : List ℕ) → m (b ∷ k) ≡ lookup_from q old k)
      → entry (upsert s old ((split us p).0.sublists b) (p + 1) q) ≡ ok slot
      → SlotCorrect us p m b slot
  upserted s us p q n b m old slot t h mb le same_map e k nk =
      let lt = masked_lt us p n b t h mb in
      let (o, made, same) =
        entry-eq-ok (upsert s old ((split us p).0.sublists b) (p + 1) q) slot e in
      same k
      ∙ upsert_correct s old _ (p + 1) q n o (sublist-Table p n b us t lt) (omega arith) le made k
          nk
      ∙ below_branch us p n b m (lookup_from q old) k t h same_map

  -- A branch with no update keeps its map.
  untouched :
      (us : UpdateList) (p n b : ℕ) (m : Map) (slot slot' : Slot)
      → Table p n us
      → AllUpdates (Reaches p) us
      → (split us p).0.mask b ≡ false
      → ((k : List ℕ) → slot_map slot' k ≡ m (b ∷ k))
      → ok slot' ≡ ok slot
      → SlotCorrect us p m b slot
  untouched us p n b m slot slot' t h mb same e k nk =
      let is : slot ≡ slot' = cc e in
      rw is (same k ∙ sym (unmasked us p n b m (m (b ∷ k)) k t h mb))

  -- The map `m` reads the children of `old` below each branch.
  ReadsChildren : Node → Map → Type 0
  ReadsChildren old m = (b : ℕ) (k : List ℕ) → m (b ∷ k) ≡ lookup_child (children old) b k

  dispatch_slot_correct :
      (s : S) (old : Node) (us : UpdateList) (p n : ℕ) (m : Map)
      → Table p n us
      → AllUpdates (Reaches p) us
      → ReadsChildren old m
      → (b : ℕ) (slot : Slot) → dispatch_slot sm upsert create s old (split us p).0 p b ≡ ok slot
      → SlotCorrect us p m b slot
  unfolding ReadsChildren
  dispatch_slot_correct s old us p n m t h reads b slot e =
      elim (Bool-cases ((split us p).0.mask b)) [
        | inl mb ↦ elim (Option-cases (next_at b (children old))) [
          | inl o ↦
              created (sm.down s b) us p n b m slot t h mb
                (λ k. reads b k ∙ lookup_child-next_at (children old) b k ∙ rw o) (rw (mb, o) at e)
          | inr (c, o) ↦
              upserted (sm.down s b) us p 0 n b m c slot t h mb (omega arith)
                (λ k. reads b k ∙ lookup_child-next_at (children old) b k ∙ rw o (lookup_lem c k))
                (rw (mb, o) at e)
        ]
        | inr mb ↦ elim (Option-cases (next_at b (children old))) [
          | inl o ↦
              untouched us p n b m slot absent t h mb
                (λ k. sym (reads b k ∙ lookup_child-next_at (children old) b k ∙ rw o))
                (rw (mb, o) at e)
          | inr (c, o) ↦
              untouched us p n b m slot (kept c) t h mb
                (λ k. sym (reads b k ∙ lookup_child-next_at (children old) b k ∙ rw o))
                (rw (mb, o) at e)
        ]
      ]

  pub dispatch_body_correct :
      (s : S) (old : Node) (us : UpdateList) (p n : ℕ) (m : Map) (path : List ℕ)
      (leaf : Option (List ℕ)) (ver : ℕ) (res : Option Node)
      → Table p n us
      → AllUpdates (Reaches p) us
      → ((b : ℕ) (k : List ℕ) → m (b ∷ k) ≡ lookup_child (children old) b k)
      → dispatch_body sm upsert create s old (split us p).0 p path leaf ver ≡ ok res
      → (k : List ℕ) → All IsNibble k
      → lookup_root res k
        ≡ after (strip path k) (at_end leaf (λ b r. apply_in us p m (m (b ∷ r)) (b ∷ r)))
  unfolding dispatch_body ReadsChildren
  dispatch_body_correct s old us p n m path leaf ver res t h reads e k nk =
      let slots = dispatch_slot sm upsert create s old (split us p).0 p in
      let ((cs, ver'), built, made) = >>=-eq-ok (build slots branches ver) _ e in
      build_correct slots us p m path leaf ver ver' cs ver'
        (dispatch_slot_correct s old us p n m t h reads) built res made k nk

  mismatch_slot_correct :
      (s : S) (old : Node) (us : UpdateList) (p q n : ℕ)
      → Table p n us
      → AllUpdates (Reaches p) us
      → q < length (path old)
      → (b : ℕ) (slot : Slot) → mismatch_slot sm upsert create s old (split us p).0 q p b ≡ ok slot
      → SlotCorrect us p (lookup_from q old) b slot
  mismatch_slot_correct s old us p q n t h lt b slot e =
      let x = get_or (path old) q 0 in
      let reads = λ (k : List ℕ). lookup_from-next old q b k lt in
      elim (Bool-cases ((split us p).0.mask b)) [
        | inl mb ↦ elim (Bool-cases (b == x)) [
          | inl o ↦
              upserted (sm.down s b) us p (q + 1) n b (lookup_from q old) old slot t h mb
                (omega arith) (λ k. reads k ∙ rw o) (rw (mb, o) at e)
          | inr o ↦
              created (sm.down s b) us p n b (lookup_from q old) slot t h mb (λ k. reads k ∙ rw o)
                (rw (mb, o) at e)
        ]
        | inr mb ↦ elim (Bool-cases (b == x)) [
          | inl o ↦
              untouched us p n b (lookup_from q old) slot
                (kept (
                  node (drop (q + 1) (path old)) (Node.value old) (Node.version old)
                    (children old)))
                t h mb (λ k. lookup_lem _ k ∙ sym (reads k ∙ rw o)) (rw (mb, o) at e)
          | inr o ↦
              untouched us p n b (lookup_from q old) slot absent t h mb (λ k. sym (reads k ∙ rw o))
                (rw (mb, o) at e)
        ]
      ]

  pub mismatch_body_correct :
      (s : S) (old : Node) (us : UpdateList) (p q n : ℕ) (path : List ℕ) (res : Option Node)
      → Table p n us
      → AllUpdates (Reaches p) us
      → q < length (Node.path old)
      → mismatch_body sm upsert create s old (split us p).0 path q p ≡ ok res
      → (k : List ℕ) → All IsNibble k
      → lookup_root res k
        ≡ after (strip path k) (
            at_end none
              (λ b r. apply_in us p (lookup_from q old) (lookup_from q old (b ∷ r)) (b ∷ r)))
  unfolding mismatch_body
  mismatch_body_correct s old us p q n path res t h lt e k nk =
      let slots = mismatch_slot sm upsert create s old (split us p).0 q p in
      let ((cs, ver'), built, made) = >>=-eq-ok (build slots branches 0) _ e in
      build_correct slots us p (lookup_from q old) path none 0 ver' cs ver'
        (mismatch_slot_correct s old us p q n t h lt) built res made k nk
