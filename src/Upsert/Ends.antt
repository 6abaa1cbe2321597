-- ===== src/Upsert/Ends.antt =====
-- `dispatch_updates_impl_`, `mismatch_handler_` and `update_value_and_subtrie_` return, given that the
-- functions which they call do: no assertion fails where the old trie and the insertions have one
-- shape.
use nomad_mpt.Prelude.{
  ℕ, suc, ◌+◌, ◌-◌, ◌<◌, ◌⊎◌, ◌≤◌, ◌≡◌, refl, arith, true, false, Bool-cases, Option-cases, inl,
  inr, none, some,
}
use nomad_mpt.Prelude.{Option, List, ◌==◌, leb, length, get_or, or_else, length-drop}
use nomad_mpt.Result.{Result, ok}
use nomad_mpt.Update
use nomad_mpt.Update.{
  Update, UpdateList, nil, cons, key, next, incarnation, is_deletion, is_empty, Requests, branches,
}
use nomad_mpt.Node
use nomad_mpt.Node.{
  Node, Children, Slot, absent, erased, updated, kept, path, children, next_at,
  create_node_from_children_if_any,
}
use nomad_mpt.Apply.{AllUpdates, IsEntry}
use nomad_mpt.Apply.Split.{split, split_into_sublists-split, Reaches}
use nomad_mpt.Apply.Masks.{split-IsSplit, masked_sublist}
use nomad_mpt.Upsert.Base.{StateMachine, entry, is_none}
use nomad_mpt.Upsert.Change.{dispatch_slot, dispatch_body, mismatch_slot, mismatch_body}
use nomad_mpt.Upsert.Walking.{update_value_body}
use nomad_mpt.Upsert.Tables.{IsTable-Reaches, entry_next}
use nomad_mpt.Upsert.Create.{masked_lt}
use nomad_mpt.Upsert.CreateLoop.{FromRequests}
use nomad_mpt.Upsert.Dispatch.{Upserter}
use nomad_mpt.Upsert.Walk.{Dispatcher, UpdateValue}
use nomad_mpt.Upsert.WalkLoop.{Mismatcher}
use nomad_mpt.Upsert.Grow.{IsInsert, fuel_for, sublist-Growing, insert_value}
use nomad_mpt.Upsert.Returns.{
  CreateReturns, FromReturns, build_returns, Short, ShortSlot, node_fits,
}
use nomad_mpt.Upsert.Shape.{
  Suits, Stands, Below, child-Stands, Stands-version, Stands-fits, Stage, sublist-Stage,
  nested-Stage,
}

-- A call returns, and its node has a path of at most `l` nibbles; the like of a slot.
abbrev pub Ends : ℕ → Result (Option Node) → Type 0
Ends l r = (o : Option Node) × (r ≡ ok o) × Short l o

abbrev pub SlotEnds : ℕ → Result Slot → Type 0
SlotEnds m r = (s : Slot) × (r ≡ ok s) × ShortSlot m s

entry-Ends : (m : ℕ) (r : Result (Option Node)) → Ends m r → SlotEnds m (entry r)
entry-Ends m r (none, e, short) = (erased, rw e, tt)
entry-Ends m r (some n, e, short) = (updated n, rw e, short)

-- Room for the path of a node: it has a leaf, or what joins its path stays within 8 bits.
abbrev pub Room : ℕ → Option (List ℕ) → List ℕ → ℕ → ℕ → Type 0
Room l leaf path p n =
    ((is_none leaf ≡ false) × (length path ≤ l))
    ⊎ ((p < n) × (length path + (n - p) ≤ l) × (l ≤ 255))

Room-fits :
    (l : ℕ) (leaf : Option (List ℕ)) (path : List ℕ) (p n : ℕ)
    → Room l leaf path p n
    → ((is_none leaf ≡ false) × (length path ≤ l))
      ⊎ ((length path + 1 + (n - (p + 1)) ≤ l) × (l ≤ 255))
Room-fits l leaf path p n (inl h) = inl h
Room-fits l leaf path p n (inr h) = inr (omega (arith, h.0, h.1), h.2)

module _ (v : ℕ) {S : Type 0} where
  abbrev pub UpsertEnds : ℕ → Upserter S → Type 0
  UpsertEnds f upsert =
      (s : S) (old : Node) (us : UpdateList) (p q d n : ℕ) (ls : List ℕ)
      → Stage v f p n ls us
      → is_empty us ≡ false
      → Stands v n ls d old
      → d + q ≡ p
      → p ≤ n
      → q ≤ length (path old)
      → Ends (n - p) (upsert s old us p q)

  abbrev pub UpdateEnds : ℕ → UpdateValue S → Type 0
  UpdateEnds f update_value =
      (s : S) (old : Node) (path : List ℕ) (u : Update) (d n : ℕ) (ls : List ℕ)
      → Stands v n ls d old
      → n ≤ d + length (Node.path old)
      → Suits v n ls u
      → IsEntry n u
      → IsInsert u
      → fuel_for (next u) + 2 ≤ f
      → Ends (length path) (update_value s old path u)

  abbrev pub DispatchEnds : ℕ → Dispatcher S → Type 0
  DispatchEnds f dispatch =
      (s : S) (old : Node) (us : UpdateList) (p n : ℕ) (ls : List ℕ) (path : List ℕ)
      (leaf : Option (List ℕ)) (ver l : ℕ)
      → Stage v (f + 2) p n ls us
      → AllUpdates (Reaches p) us
      → 1 ≤ f
      → Below v n ls (p + 1) (children old)
      → Room l leaf path p n
      → Ends l (dispatch s old (split us p).0 p path leaf ver)

  abbrev pub MismatchEnds : ℕ → Mismatcher S → Type 0
  MismatchEnds f mismatch =
      (s : S) (old : Node) (us : UpdateList) (p q d n : ℕ) (ls : List ℕ) (path : List ℕ) (l : ℕ)
      → Stage v (f + 2) p n ls us
      → AllUpdates (Reaches p) us
      → 1 ≤ f
      → Stands v n ls d old
      → d + q ≡ p
      → q < length (Node.path old)
      → length path + (n - p) ≤ l
      → l ≤ 255
      → Ends l (mismatch s old (split us p).0 path q p)

module _ (v : ℕ) {S : Type 0} (sm : StateMachine S) (f : ℕ) (upsert : Upserter S)
    (create : S → UpdateList → ℕ → Result (Option Node)) (upsert_ends : UpsertEnds v f upsert)
    (create_returns : CreateReturns f create) where
  created :
      (s : S) (us : UpdateList) (p n b : ℕ) (ls : List ℕ)
      → Stage v (suc f + 2) p n ls us
      → AllUpdates (Reaches p) us
      → (split us p).0.mask b ≡ true
      → SlotEnds (n - (p + 1)) (entry (create s ((split us p).0.sublists b) (p + 1)))
  created s nil p n b ls g h m = cc m
  created s (cons u us) p n b ls g h m =
      let lt = masked_lt (cons u us) p n b g.growing.table h m in
      let (o, e, _, short) =
        create_returns s _ (p + 1) n
          (sublist-Growing (suc f + 2) f p n b (cons u us) g.growing lt (omega arith)) (omega arith)
          (omega (arith, g.growing.covered.0, h.0)) in
      entry-Ends _ _ (o, e, short)

  upserted :
      (s : S) (us : UpdateList) (p q d n b : ℕ) (ls : List ℕ) (old : Node)
      → Stage v (suc f + 2) p n ls us
      → AllUpdates (Reaches p) us
      → (split us p).0.mask b ≡ true
      → Stands v n ls d old
      → d + q ≡ p + 1
      → q ≤ length (path old)
      → SlotEnds (n - (p + 1)) (entry (upsert s old ((split us p).0.sublists b) (p + 1) q))
  upserted s us p q d n b ls old g h m st e le =
      let lt = masked_lt us p n b g.growing.table h m in
      entry-Ends _ _ (
        upsert_ends s old _ (p + 1) q d n ls
          (sublist-Stage v (suc f + 2) f p n b ls us g lt (omega arith)) (masked_sublist us p b m)
          st e (omega arith) le)

  pub dispatch_body_ends : DispatchEnds v (suc f) (dispatch_body sm upsert create)
  unfolding dispatch_body
  dispatch_body_ends s old us p n ls path leaf ver l g h pos below room =
      let (cs, (ver', e, short)) = build_returns (n - (p + 1)) slots all branches ver in
      let (o, made, o_short) =
        node_fits (n - (p + 1)) l cs path leaf ver' short (Room-fits l leaf path p n room) in
      (o, rw e made, o_short)
    where
      slots : ℕ → Result Slot
      slots = dispatch_slot sm upsert create s old (split us p).0 p

      all : (b : ℕ) → SlotEnds (n - (p + 1)) (slots b)
      all b = elim (Bool-cases ((split us p).0.mask b)) [
        | inl m ↦ elim (Option-cases (next_at b (children old))) [
          | inl o ↦ rw (m, o) (created (sm.down s b) us p n b ls g h m)
          | inr (c, o) ↦
              rw (m, o)
                (upserted (sm.down s b) us p 0 (p + 1) n b ls c g h m
                  (child-Stands v n (p + 1) b ls (children old) c below o) (omega arith)
                  (omega arith))
        ]
        | inr m ↦ elim (Option-cases (next_at b (children old))) [
          | inl o ↦ rw (m, o) (absent, refl, tt)
          | inr (c, o) ↦
              let stands = child-Stands v n (p + 1) b ls (children old) c below o in
              rw (m, o) (kept c, refl, omega (arith, Stands-fits v n (p + 1) ls c stands))
        ]
      ]

  pub mismatch_body_ends : MismatchEnds v (suc f) (mismatch_body sm upsert create)
  unfolding mismatch_body
  mismatch_body_ends s old us p q d n ls path l g h pos st e lt room small =
      let (cs, (ver', built, short)) = build_returns (n - (p + 1)) slots all branches 0 in
      let fits = Stands-fits v n d ls old st in
      let (o, made, o_short) =
        node_fits (n - (p + 1)) l cs path none ver' short
          (inr (omega (arith, room, fits, e, lt), small)) in
      (o, rw built made, o_short)
    where
      slots : ℕ → Result Slot
      slots = mismatch_slot sm upsert create s old (split us p).0 q p

      all : (b : ℕ) → SlotEnds (n - (p + 1)) (slots b)
      all b = elim (Bool-cases ((split us p).0.mask b)) [
        | inl m ↦ elim (Bool-cases (b == get_or (Node.path old) q 0)) [
          | inl o ↦
              rw (m, o)
                (upserted (sm.down s b) us p (q + 1) d n b ls old g h m st (omega arith)
                  (omega arith))
          | inr o ↦ rw (m, o) (created (sm.down s b) us p n b ls g h m)
        ]
        | inr m ↦ elim (Bool-cases (b == get_or (Node.path old) q 0)) [
          | inl o ↦
              rw (m, o)
                (
                  _,
                  refl,
                  omega (
                    arith,
                    length-drop (q + 1) (Node.path old),
                    Stands-fits v n d ls old st,
                    e,
                    lt,
                  ),
                )
          | inr o ↦ rw (m, o) (absent, refl, tt)
        ]
      ]

not_deletion : (u : Update) → IsInsert u → is_deletion u ≡ false
not_deletion (Update.update k none inc l ver) h = absurd h
not_deletion (Update.update k (some x) inc l ver) h = refl

Suits-version : (v n : ℕ) (ls : List ℕ) (u : Update) → Suits v n ls u → v ≤ Update.version u
Suits-version v n ls (Update.update k x inc l ver) h = h.2

module _ (v : ℕ) {S : Type 0} (sm : StateMachine S) (f : ℕ) (from_requests : FromRequests S)
    (dispatch : Dispatcher S) (from_returns : FromReturns f from_requests)
    (dispatch_ends : DispatchEnds v f dispatch) where
  pub update_value_body_ends : UpdateEnds v (suc f) (update_value_body sm from_requests dispatch)
  unfolding update_value_body
  update_value_body_ends s old path u d n ls st le su en ins fuel =
      let (m, ls', g, below) = nested-Stage v (f + 2) n d ls old u st le su en ins (omega arith) in
      let reaches = IsTable-Reaches _ (next u) (entry_next n u en).1 in
      let (x, leaf) = insert_value u ins in
      let split_ok = split_into_sublists-split (next u) 0 reaches in
      let bare = (split-IsSplit (next u) 0).no_leaf in
      elim (Bool-cases (incarnation u)) [
        | inl i ↦
            let (y, e, same) =
              from_returns s (next u) path 0 m (Update.value u) (Update.version u) g.growing reaches
                (omega arith) (inr (rw leaf)) in
            (some y, rw (not_deletion u ins, split_ok, bare, i) e, rw same (omega arith))
        | inr i ↦
            let newer : leb (Node.version old) (Update.version u) ≡ true =
              ground (arith, Stands-version v n d ls old st, Suits-version v n ls u su) in
            let kept_leaf : is_none (or_else (Update.value u) (Node.value old)) ≡ false =
              rw leaf refl in
            let (o, e, short) =
              dispatch_ends s old (next u) 0 m ls' path (or_else (Update.value u) (Node.value old))
                (Update.version u) (length path) g reaches (omega arith) below
                (inl (kept_leaf, omega arith)) in
            (o, rw (not_deletion u ins, split_ok, bare, i, newer) e, short)
      ]
