-- ===== src/Upsert/Returns.antt =====
-- `create_new_trie_from_requests_` returns a node, given that `create_new_trie_` does.
use nomad_mpt.Prelude.{
  ℕ, suc, ◌+◌, ◌<◌, ◌≤◌, ◌≡◌, ◌⊎◌, refl, arith, true, false, Bool-cases, inl, inr, none, some,
}
use nomad_mpt.Prelude.{
  Option, List, [], ◌∷◌, ◌++◌, get_or, take, zero, length, length-append, leb, ◌-◌, sym, ◌∙◌, In,
}
use nomad_mpt.Result.{Result, ok, >>=-eq-ok}
use nomad_mpt.Update.{UpdateList, nil, cons, key, size, is_empty, branches}
use nomad_mpt.Node.{
  Node, Children, no_child, child, Slot, absent, erased, updated, kept, add, bump,
  create_node_from_children_if_any, join, node, path, value, children, number_of_children,
}
use nomad_mpt.Node
use nomad_mpt.Apply.{AllUpdates, IsEntry}
use nomad_mpt.Apply.Split.{split, Reaches, At, split-AllUpdates}
use nomad_mpt.Apply.Masks.{split-IsSplit, masked_sublist, In-branches}
use nomad_mpt.Upsert.Base.{StateMachine, is_none, build, entry}
use nomad_mpt.Upsert.New.{new_slot, from_requests_body}
use nomad_mpt.Upsert.Tables.{Table, AllUpdates-map, entry_nibble}
use nomad_mpt.Upsert.Create.{masked_lt}
use nomad_mpt.Upsert.CreateLoop.{FromRequests}
use nomad_mpt.Upsert.Grow.{Growing, sublist-Growing}

-- The nodes of a slot and of children, with paths of at most `m` nibbles.
abbrev pub ShortSlot : ℕ → Slot → Type 0
ShortSlot m absent = Unit
ShortSlot m erased = Unit
ShortSlot m (updated n) = length (path n) ≤ m
ShortSlot m (kept n) = length (path n) ≤ m

abbrev pub ShortChildren : ℕ → Children → Type 0
ShortChildren m no_child = Unit
ShortChildren m (child b n cs) = (length (path n) ≤ m) × ShortChildren m cs

abbrev pub Short : ℕ → Option Node → Type 0
Short m none = Unit
Short m (some n) = length (path n) ≤ m

pub more-Short : (l m : ℕ) (o : Option Node) → Short l o → l ≤ m → Short m o
more-Short l m none h le = tt
more-Short l m (some n) h le = omega (arith, h, le)

add-ShortChildren :
    (m b : ℕ) (s : Slot) (cs : Children)
    → ShortSlot m s
    → ShortChildren m cs
    → ShortChildren m (add b s cs)
add-ShortChildren m b absent cs h k = k
add-ShortChildren m b erased cs h k = k
add-ShortChildren m b (updated n) cs h k = (h, k)
add-ShortChildren m b (kept n) cs h k = (h, k)

-- The loop over the branches returns if each of its slots does.
module _ (m : ℕ) (f : ℕ → Result Slot)
    (slots : (b : ℕ) → (s : Slot) × (f b ≡ ok s) × ShortSlot m s) where
  pub build_returns :
      (bs : List ℕ) (v : ℕ)
      → (cs : Children) × ((v' : ℕ) × (build f bs v ≡ ok (cs, v')) × ShortChildren m cs)
  unfolding build
  build_returns [] v = (no_child, (v, refl, tt))
  build_returns (b ∷ bs) v =
      let (s, e, short) = slots b in
      let (cs, (v', e', all_short)) = build_returns bs (bump s v) in
      (add b s cs, (v', rw (e, e', build), add-ShortChildren m b s cs short all_short))

-- A new node with a leaf or two children keeps its path.
node_made :
    (cs : Children) (path : List ℕ) (leaf : Option (List ℕ)) (ver : ℕ)
    → (2 ≤ number_of_children cs) ⊎ (is_none leaf ≡ false)
    → create_node_from_children_if_any cs path leaf ver ≡ ok (some (node path leaf ver cs))
unfolding create_node_from_children_if_any
node_made no_child path none ver (inl h) = absurd (omega arith)
node_made no_child path none ver (inr h) = cc
node_made no_child path (some v) ver h = refl
node_made (child b n no_child) path none ver (inl h) = absurd (omega arith)
node_made (child b n no_child) path none ver (inr h) = cc
node_made (child b n no_child) path (some v) ver h = refl
node_made (child b n (child c n' cs)) path leaf ver h = refl

pub length-take-le_count : (m : ℕ) (xs : List ℕ) → length (take m xs) ≤ m
length-take-le_count zero xs = omega arith
length-take-le_count (suc m) [] = omega arith
length-take-le_count (suc m) (x ∷ xs) = omega (arith, length-take-le_count m xs)

join_ok :
    (p : List ℕ) (b : ℕ) (q : List ℕ)
    → length p + 1 + length q ≤ 255
    → join p b q ≡ ok (p ++ (b ∷ q))
join_ok p b q fits =
    let small : leb (length (p ++ (b ∷ q))) 255 ≡ true =
      rw (length-append p (b ∷ q)) (ground (arith, fits)) in
    rw small refl

-- A node is made or not, without a failed assertion, where the paths fit.
pub node_fits :
    (m l : ℕ) (cs : Children) (p : List ℕ) (leaf : Option (List ℕ)) (ver : ℕ)
    → ShortChildren m cs
    → ((is_none leaf ≡ false) × (length p ≤ l)) ⊎ ((length p + 1 + m ≤ l) × (l ≤ 255))
    → (o : Option Node) × (create_node_from_children_if_any cs p leaf ver ≡ ok o) × Short l o
unfolding create_node_from_children_if_any
node_fits m l no_child p none ver short fit = (none, refl, tt)
node_fits m l no_child p (some v) ver short (inl fit) = (_, refl, fit.1)
node_fits m l no_child p (some v) ver short (inr fit) = (_, refl, omega (arith, fit.0))
node_fits m l (child b n no_child) p none ver short (inl fit) = cc fit.0
node_fits m l (child b n no_child) p none ver short (inr fit) =
    let size = length-append p (b ∷ path n) in
    (
      some (node (p ++ (b ∷ path n)) (value n) ver (children n)),
      rw (join_ok p b (path n) (omega (arith, fit.0, fit.1, short.0))) refl,
      omega (arith, size, fit.0, short.0),
    )
node_fits m l (child b n no_child) p (some v) ver short (inl fit) = (_, refl, fit.1)
node_fits m l (child b n no_child) p (some v) ver short (inr fit) = (_, refl, omega (arith, fit.0))
node_fits m l (child b n (child c n' cs)) p leaf ver short (inl fit) = (_, refl, fit.1)
node_fits m l (child b n (child c n' cs)) p leaf ver short (inr fit) =
    (_, refl, omega (arith, fit.0))

add_more :
    (b : ℕ) (s : Slot) (cs : Children) (k : ℕ)
    → k ≤ number_of_children cs
    → k ≤ number_of_children (add b s cs)
add_more b absent cs k h = h
add_more b erased cs k h = h
add_more b (updated n) cs k h = omega arith
add_more b (kept n) cs k h = omega arith

-- A branch with a new node leaves a child.
build_full :
    (f : ℕ → Result Slot) (b : ℕ) (n : Node) (bs : List ℕ) (v v' : ℕ) (cs : Children)
    → f b ≡ ok (updated n)
    → In b bs
    → build f bs v ≡ ok (cs, v')
    → 1 ≤ number_of_children cs
unfolding build
build_full f b n [] v v' cs fb i e = absurd i
build_full f b n (x ∷ bs) v v' cs fb i e =
    let (s, fx, e1) = >>=-eq-ok (f x) _ e in
    let ((cs', w), e2, e3) = >>=-eq-ok (build f bs (bump s v)) _ e1 in
    let same : cs ≡ add x s cs' = cc e3 in
    rw same (pick s cs' fx i (λ j. build_full f b n bs (bump s v) w cs' fb j e2))
  where
    pick :
        (s : Slot) (cs' : Children)
        → f x ≡ ok s
        → (b ≡ x) ⊎ In b bs
        → (In b bs → 1 ≤ number_of_children cs')
        → 1 ≤ number_of_children (add x s cs')
    pick s cs' fx (inl p) g = let is : s ≡ updated n = cc (fx, fb, p) in rw is (omega arith)
    pick s cs' fx (inr j) g = add_more x s cs' 1 (g j)

-- Two branches with new nodes leave two children.
build_two :
    (f : ℕ → Result Slot) (b c : ℕ) (n m : Node) (bs : List ℕ) (v v' : ℕ) (cs : Children)
    → (b ≡ c → ⊥)
    → f b ≡ ok (updated n)
    → f c ≡ ok (updated m)
    → In b bs
    → In c bs
    → build f bs v ≡ ok (cs, v')
    → 2 ≤ number_of_children cs
unfolding build
build_two f b c n m [] v v' cs ne fb fc i j e = absurd i
build_two f b c n m (x ∷ bs) v v' cs ne fb fc i j e =
    let (s, fx, e1) = >>=-eq-ok (f x) _ e in
    let ((cs', w), e2, e3) = >>=-eq-ok (build f bs (bump s v)) _ e1 in
    let same : cs ≡ add x s cs' = cc e3 in
    rw same (
      pick s cs' fx i j (λ k. build_full f b n bs (bump s v) w cs' fb k e2)
        (λ k. build_full f c m bs (bump s v) w cs' fc k e2)
        (λ k l. build_two f b c n m bs (bump s v) w cs' ne fb fc k l e2))
  where
    pick :
        (s : Slot) (cs' : Children)
        → f x ≡ ok s
        → (b ≡ x) ⊎ In b bs
        → (c ≡ x) ⊎ In c bs
        → (In b bs → 1 ≤ number_of_children cs')
        → (In c bs → 1 ≤ number_of_children cs')
        → (In b bs → In c bs → 2 ≤ number_of_children cs')
        → 2 ≤ number_of_children (add x s cs')
    pick s cs' fx (inl p) (inl q) g h k = absurd (ne (p ∙ sym q))
    pick s cs' fx (inl p) (inr q) g h k =
        let is : s ≡ updated n = cc (fx, fb, p) in rw is (omega (arith, h q))
    pick s cs' fx (inr p) (inl q) g h k =
        let is : s ≡ updated m = cc (fx, fc, q) in rw is (omega (arith, g p))
    pick s cs' fx (inr p) (inr q) g h k = add_more x s cs' 2 (k p q)

-- A call returns a node whose path is short, and makes one where there is an update.
abbrev pub Returns : ℕ → UpdateList → Result (Option Node) → Type 0
Returns l us r =
    (o : Option Node) × (r ≡ ok o) × (is_empty us ≡ false → is_none o ≡ false) × Short l o

abbrev pub CreateReturns : {S : Type 0} → ℕ → (S → UpdateList → ℕ → Result (Option Node)) → Type 0
CreateReturns {S} f create =
    (s : S) (us : UpdateList) (p n : ℕ)
    → Growing f p n us
    → p ≤ n
    → 1 ≤ f
    → Returns (n - p) us (create s us p)

abbrev pub FromReturns : {S : Type 0} → ℕ → FromRequests S → Type 0
FromReturns {S} f from_requests =
    (s : S) (us : UpdateList) (path : List ℕ) (p n : ℕ) (leaf : Option (List ℕ)) (ver : ℕ)
    → Growing (f + 2) p n us
    → AllUpdates (Reaches p) us
    → 1 ≤ f
    → (1 < (split us p).1) ⊎ (is_none leaf ≡ false)
    → (x : Node) × (from_requests s (split us p).0 path p leaf ver ≡ ok (some x))
      × (Node.path x ≡ path)

abbrev pub LoopReturns : {S : Type 0} → ℕ → (S → UpdateList → ℕ → ℕ → Result (Option Node)) → Type 0
LoopReturns {S} f loop =
    (s : S) (us : UpdateList) (start p n : ℕ)
    → Growing (f + 1) p n us
    → start ≤ p
    → p < n
    → 2 ≤ size us
    → (x : Node) × (loop s us start p ≡ ok (some x)) × (length (path x) ≤ n - start)

entry-Returns :
    (l : ℕ) (us : UpdateList) (r : Result (Option Node))
    → is_empty us ≡ false
    → Returns l us r
    → (x : Node) × (entry r ≡ ok (updated x)) × (length (path x) ≤ l)
entry-Returns l us r h (none, e, full, short) = cc (full h)
entry-Returns l us r h (some x, e, full, short) = (x, rw e, short)

-- A branch of the mask is that of some update's nibble.
masked_small :
    (us : UpdateList) (p n b : ℕ) → Table p n us → p < n → (split us p).0.mask b ≡ true → b < 16
masked_small us p n b t lt m = first ((split us p).0.sublists b) (masked_sublist us p b m) (
    split-AllUpdates (λ u. get_or (key u) p 0 < 16) us p b
      (AllUpdates-map (IsEntry n) (λ u. get_or (key u) p 0 < 16) (λ u e. entry_nibble n p u e lt) us
        t.entries))
  where
    first :
        (l : UpdateList)
        → is_empty l ≡ false
        → AllUpdates (At (λ u. get_or (key u) p 0 < 16) p b) l
        → b < 16
    first nil e h = cc e
    first (cons u l) e h = omega (arith, h.0.0, h.0.1)

module _ {S : Type 0} (sm : StateMachine S) (f : ℕ)
    (create : S → UpdateList → ℕ → Result (Option Node))
    (create_returns : CreateReturns f create) where
  masked_slot :
      (s : S) (us : UpdateList) (p n b : ℕ)
      → Growing (suc f + 2) p n us
      → AllUpdates (Reaches p) us
      → (split us p).0.mask b ≡ true
      → (x : Node) × (new_slot sm create s (split us p).0 p b ≡ ok (updated x))
        × (length (path x) ≤ n - (p + 1))
  masked_slot s nil p n b g h m = cc m
  masked_slot s (cons u us) p n b g h m =
      let lt = masked_lt (cons u us) p n b g.table h m in
      rw m (
        entry-Returns (n - (p + 1)) _ _ (masked_sublist (cons u us) p b m) (
          create_returns (sm.down s b) _ (p + 1) n
            (sublist-Growing (suc f + 2) f p n b (cons u us) g lt (omega arith)) (omega arith)
            (omega (arith, g.covered.0, h.0))))

  any_slot :
      (s : S) (us : UpdateList) (p n : ℕ)
      → Growing (suc f + 2) p n us
      → AllUpdates (Reaches p) us
      → (b : ℕ)
      → (slot : Slot) × (new_slot sm create s (split us p).0 p b ≡ ok slot)
        × ShortSlot (n - (p + 1)) slot
  any_slot s us p n g h b = elim (Bool-cases ((split us p).0.mask b)) [
    | inl m ↦ let (x, e, short) = masked_slot s us p n b g h m in (updated x, e, short)
    | inr m ↦ (absent, rw m, tt)
  ]

  pub from_requests_body_returns : FromReturns (suc f) (from_requests_body sm create)
  unfolding from_requests_body
  from_requests_body_returns s us path p n leaf ver g h pos full =
      let slots = new_slot sm create s (split us p).0 p in
      let (cs, (ver', e, _)) =
        build_returns (n - (p + 1)) slots (any_slot s us p n g h) branches ver in
      let made = node_made cs path leaf ver' (two_or_leaf full cs ver' e) in
      (node path leaf ver' cs, rw (e, made), refl)
    where
      two_or_leaf :
          (1 < (split us p).1) ⊎ (is_none leaf ≡ false)
          → (cs : Children) (ver' : ℕ)
          → build (new_slot sm create s (split us p).0 p) branches ver ≡ ok (cs, ver')
          → (2 ≤ number_of_children cs) ⊎ (is_none leaf ≡ false)
      two_or_leaf (inr l) cs ver' e = inr l
      two_or_leaf (inl two) cs ver' e =
          let (b, c, ne, at_b, at_c) = (split-IsSplit us p).two_if two in
          let lt = masked_lt us p n b g.table h at_b in
          let (x, fb, _) = masked_slot s us p n b g h at_b in
          let (y, fc, _) = masked_slot s us p n c g h at_c in
          inl (
            build_two (new_slot sm create s (split us p).0 p) b c x y branches ver ver' cs ne fb fc
              (In-branches b (masked_small us p n b g.table lt at_b))
              (In-branches c (masked_small us p n c g.table lt at_c)) e)
