-- ===== src/Upsert/Contract.antt =====
-- What `upsert` promises: it returns, and the trie that it returns has the changed map.
use nomad_mpt.Prelude.{
  ℕ, zero, suc, ◌+◌, ◌-◌, ◌<◌, ◌⊎◌, subst, ◌==◌, Bool-cases, ◌≤◌, ◌≡◌, refl, arith, false,
  Option-cases, inl, inr, none, some,
}
use nomad_mpt.Prelude.{Option, List, ◌∷◌, length, All}
use nomad_mpt.Result.{Result, ok}
use nomad_mpt.Update.{update, UpdateList, nil, cons, is_empty, branches, reset}
use nomad_mpt.Node
use nomad_mpt.Node.{
  Node, node, Children, no_child, child, Slot, absent, kept, path, children, next_at,
  create_node_from_children_if_any,
}
use nomad_mpt.Lookup.{lookup_root}
use nomad_mpt.Apply.{apply, IsTable}
use nomad_mpt.Upsert.Base.{StateMachine, is_none, descend}
use native.Mathlib.Nat.{zero-add}
use nomad_mpt.Upsert.Change.{dispatch_body, dispatch_slot}
use nomad_mpt.Upsert.Recursion.{
  create_new_trie, upsert_, upsert_loop, update_value_and_subtrie, dispatch_updates,
  mismatch_handler, upsert,
}
use nomad_mpt.Upsert.Laws.{upsert_lem}
use nomad_mpt.Upsert.Grow.{AreInserts, fuel_for}
use nomad_mpt.Upsert.Returns.{build_returns, node_fits}
use nomad_mpt.Upsert.Inserts.{all_return, create_new_trie_lem}
use nomad_mpt.Upsert.Shape.{
  AllSuit, Stands, Below, child-Stands, Stands-fits, Stage, more-Stage, start-Stage,
}
use nomad_mpt.Upsert.Ends.{
  Ends, SlotEnds, UpsertEnds, UpdateEnds, DispatchEnds, MismatchEnds, dispatch_body_ends,
  mismatch_body_ends, update_value_body_ends,
}
use nomad_mpt.Nibbles.Bytes.{IsNibble}
use nomad_mpt.Upsert.Total.{LoopEnds, upsert_loop_body_ends, upsert_body_ends}

module _ {S : Type 0} (sm : StateMachine S)
    (fixed : (s : S) → sm.is_variable_length s ≡ false) where
  all_end :
      (v f : ℕ)
      → UpsertEnds v f (upsert_ sm f)
        × LoopEnds v f (upsert_loop sm f)
        × UpdateEnds v f (update_value_and_subtrie sm f)
        × DispatchEnds v f (dispatch_updates sm f)
        × MismatchEnds v f (mismatch_handler sm f)
  unfolding create_new_trie
  all_end v zero = (
    λ s old us p q d n ls g full st at_p pn le.
        absurd (no_fuel us p n ls (more-Stage v 0 1 p n ls us g (omega arith)) full),
    λ s old us p start q d n ls g full st at_p pn le from. absurd (no_fuel us p n ls g full),
    λ s old path u d n ls st le su en ins fuel. absurd (omega arith),
    λ s old us p n ls path leaf ver l g h pos below room. absurd (omega arith),
    λ s old us p q d n ls path l g h pos st e lt room small. absurd (omega arith),
  )
    where
      no_fuel :
          (us : UpdateList) (p n : ℕ) (ls : List ℕ) → Stage v 1 p n ls us → is_empty us ≡ false → ⊥
      no_fuel nil p n ls g full = cc full
      no_fuel (cons u us) p n ls g full = omega (arith, g.growing.covered.0)
  all_end v (suc f) =
      let (u, l, w, d, m) = all_end v f in
      let (c, _, r) = all_return sm fixed f in
      (
        upsert_body_ends v sm f (upsert_loop sm f) (update_value_and_subtrie sm f)
            (dispatch_updates sm f) (mismatch_handler sm f) l w d m fixed,
        upsert_loop_body_ends v sm f (upsert_loop sm f) (update_value_and_subtrie sm f)
            (dispatch_updates sm f) (mismatch_handler sm f) l w d m,
        update_value_body_ends v sm f _ (dispatch_updates sm f) r d,
        dispatch_body_ends v sm f (upsert_ sm f) (create_new_trie sm f) u c,
        mismatch_body_ends v sm f (upsert_ sm f) (create_new_trie sm f) u c,
      )

  -- With no update every child stays.
  rebuilt-Ends :
      (f : ℕ) (s : S) (old : Node) (p : ℕ) (path : List ℕ) (leaf : Option (List ℕ)) (ver m l : ℕ)
      → ((b : ℕ) (c : Node) → next_at b (children old) ≡ some c → length (Node.path c) ≤ m)
      → ((is_none leaf ≡ false) × (length path ≤ l)) ⊎ ((length path + 1 + m ≤ l) × (l ≤ 255))
      → Ends l (dispatch_updates sm (suc f) s old (reset 0) p path leaf ver)
  unfolding dispatch_updates dispatch_body
  rebuilt-Ends f s old p path leaf ver m l short fit =
      let (cs, (ver', e, all_short)) = build_returns m slots all branches ver in
      let (o, made, o_short) = node_fits m l cs path leaf ver' all_short fit in
      (o, rw e made, o_short)
    where
      slots : ℕ → Result Slot
      slots = dispatch_slot sm (upsert_ sm f) (create_new_trie sm f) s old (reset 0) p

      all : (b : ℕ) → SlotEnds m (slots b)
      all b = elim (Option-cases (next_at b (children old))) [
        | inl o ↦ rw o (absent, refl, tt)
        | inr (c, o) ↦ rw o (kept c, refl, short b c o)
      ]

  -- All the paths of the children together.
  abbrev together : Children → ℕ
  together no_child = 0
  together (child b n cs) = length (Node.path n) + together cs

  next_at-together :
      (b : ℕ) (cs : Children) (c : Node)
      → next_at b cs ≡ some c
      → length (Node.path c) ≤ together cs
  unfolding next_at
  next_at-together b no_child c e = cc
  next_at-together b (child x n cs) c e = elim (Bool-cases (x == b)) [
    | inl t ↦ let is : n ≡ c = cc (rw t at e) in rw is (omega arith)
    | inr f ↦ omega (arith, next_at-together b cs c (rw f at e))
  ]

  root_rebuilt :
      (f v n : ℕ) (ls : List ℕ) (s : S) (old : Node)
      → n < 255
      → Stands v n ls 0 old
      → (l : ℕ) × Ends l (
          dispatch_updates sm
            (suc f)
            s
            old
            (reset 0)
            (length (path old))
            (path old)
            (Node.value old)
            (Node.version old))
  root_rebuilt f v n ls s (node p none ver cs) small st = (
    n,
    rebuilt-Ends f s (node p none ver cs) (length p) p none ver (n - (length p + 1)) n
        (λ b c e.
          let below =
            child-Stands v n (length p + 1) b ls cs c
              (subst (λ k. Below v n ls (k + 1) cs) (zero-add (length p)) st.2) e in
          omega (arith, Stands-fits v n (length p + 1) ls c below))
        (inr (omega (arith, st.1), omega (arith, small))),
  )
  root_rebuilt f v n ls s (node p (some x) ver cs) small st = (
    length p,
    rebuilt-Ends f s (node p (some x) ver cs) (length p) p (some x) ver (together cs) (length p)
        (λ b c e. next_at-together b cs c e) (inl (refl, omega arith)),
  )

  abbrev pub RootStands : ℕ → ℕ → List ℕ → Option Node → Type 0
  RootStands v n ls none = Unit
  RootStands v n ls (some old) = (n < 255) × Stands v n ls 0 old

  some_fuel : (us : UpdateList) (f : ℕ) → fuel_for us ≤ f → 1 ≤ f
  some_fuel nil f h = omega arith
  some_fuel (cons (update k x inc l ver) us) f h = omega arith

  upsert-Ends :
      (f v n : ℕ) (ls : List ℕ) (s : S) (root : Option Node) (us : UpdateList)
      → RootStands v n ls root
      → IsTable n us
      → AllSuit v (n ∷ ls) us
      → AreInserts us
      → fuel_for us ≤ f
      → (o : Option Node) × (upsert sm f s root us ≡ ok o)
  unfolding upsert
  upsert-Ends f v n ls s none us st t su i le =
      let (o, e, _) = create_new_trie_lem sm fixed f s us n t i le in (o, e)
  upsert-Ends zero v n ls s (some old) us st t su i le = absurd (omega (arith, some_fuel us 0 le))
  upsert-Ends (suc f) v n ls s (some old) nil st t su i le =
      let (l, (o, e, _)) = root_rebuilt f v n ls (descend sm s (path old)) old st.0 st.1 in (o, e)
  upsert-Ends (suc f) v n ls s (some old) (cons u us) st t su i le =
      let (o, e, _) =
        (all_end v (suc f)).0 s old (cons u us) 0 0 0 n ls
          (start-Stage v (suc f) n n ls (cons u us) t su i le) refl st.1 refl (omega arith)
          (omega arith) in
      (o, e)

  -- Where the state machine is nowhere of variable length: a database of fixed-length tables, each
  -- level of nesting with one key length below 255, and updates of that shape which all set a
  -- value, with versions that are not older: on fuel `fuel_for us` or more `upsert` passes all its
  -- assertions, the one on the length of a joined path included, and returns a trie whose map is
  -- the one that the updates make from the old trie's, read at sequences of nibbles.
  pub upsert_returns :
      (f v n : ℕ) (ls : List ℕ) (s : S) (root : Option Node) (us : UpdateList)
      → RootStands v n ls root
      → IsTable n us
      → AllSuit v (n ∷ ls) us
      → AreInserts us
      → fuel_for us ≤ f
      → (o : Option Node) × (upsert sm f s root us ≡ ok o)
        × ((k : List ℕ) → All IsNibble k → lookup_root o k ≡ apply us (lookup_root root) k)
  upsert_returns f v n ls s root us st t su i le =
      let (o, e) = upsert-Ends f v n ls s root us st t su i le in
      (o, e, λ k nk. upsert_lem sm f s root us n o t e k nk)
