-- ===== src/Upsert/Build.antt =====
-- The map of the node that a finished loop over the branches makes.
use nomad_mpt.Prelude.{
  ℕ, ◌<◌, ◌≡◌, refl, sym, ap, ◌∙◌, ◌⊎◌, arith, Bool, true, false, Bool-cases, inl, inr,
}
use nomad_mpt.Prelude.{
  if◌then◌else◌, Option, none, some, List, [], ◌∷◌, ◌++◌, ◌==◌, ==→eq, ==_self, leb, length,
}
use nomad_mpt.Result.{Result, ok, >>=-eq-ok, check-eq-ok}
use nomad_mpt.Update.{branches}
use nomad_mpt.Node.{
  Node, node, Children, no_child, child, Slot, absent, erased, updated, kept, add, bump,
}
use nomad_mpt.Node.{path, value, children, join, create_node_from_children_if_any}
use nomad_mpt.Lookup.{lookup, lookup_child, lookup_root, lookup_lem, strip, after, at_end}
use nomad_mpt.Apply.{Map}
use nomad_mpt.Apply.Masks.{In-branches}
use nomad_mpt.Prelude.{In}
use nomad_mpt.Upsert.Base.{build}

abbrev pub slot_map : Slot → Map
slot_map absent k = none
slot_map erased k = none
slot_map (updated n) k = lookup n k
slot_map (kept n) k = lookup n k

abbrev elem : ℕ → List ℕ → Bool
elem b [] = false
elem b (x ∷ xs) = if b == x then true else elem b xs

elem-In : (b : ℕ) (xs : List ℕ) → In b xs → elem b xs ≡ true
elem-In b [] h = absurd h
elem-In b (x ∷ xs) (inl e) = rw (e, ==_self x)
elem-In b (x ∷ xs) (inr h) = elim (Bool-cases (b == x)) [
  | inl e ↦ rw e
  | inr e ↦ rw e (elem-In b xs h)
]

lookup_child-add :
    (x b : ℕ) (s : Slot) (cs : Children) (k : List ℕ)
    → lookup_child (add x s cs) b k ≡ elim s [
      | absent ↦ lookup_child cs b k
      | erased ↦ lookup_child cs b k
      | updated n ↦ if x == b then lookup n k else lookup_child cs b k
      | kept n ↦ if x == b then lookup n k else lookup_child cs b k
    ]
unfolding lookup
lookup_child-add x b absent cs k = refl
lookup_child-add x b erased cs k = refl
lookup_child-add x b (updated n) cs k = refl
lookup_child-add x b (kept n) cs k = refl

add_self :
    (b : ℕ) (s : Slot) (cs : Children) (k : List ℕ) (c : Bool)
    → lookup_child cs b k ≡ (if c then slot_map s k else none)
    → lookup_child (add b s cs) b k ≡ slot_map s k
add_self b absent cs k c h = lookup_child-add b b absent cs k ∙ h ∙ ground arith
add_self b erased cs k c h = lookup_child-add b b erased cs k ∙ h ∙ ground arith
add_self b (updated n) cs k c h = lookup_child-add b b (updated n) cs k ∙ rw (==_self b)
add_self b (kept n) cs k c h = lookup_child-add b b (kept n) cs k ∙ rw (==_self b)

add_other :
    (x b : ℕ) (s : Slot) (cs : Children) (k : List ℕ)
    → (b == x) ≡ false
    → lookup_child (add x s cs) b k ≡ lookup_child cs b k
add_other x b absent cs k h = lookup_child-add x b absent cs k
add_other x b erased cs k h = lookup_child-add x b erased cs k
add_other x b (updated n) cs k h = lookup_child-add x b (updated n) cs k ∙ ground arith
add_other x b (kept n) cs k h = lookup_child-add x b (kept n) cs k ∙ ground arith

module _ (f : ℕ → Result Slot) where
  build-lookup :
      (bs : List ℕ) (v v' : ℕ) (cs : Children)
      → build f bs v ≡ ok (cs, v')
      → (b : ℕ) (s : Slot) → f b ≡ ok s
      → (k : List ℕ) → lookup_child cs b k ≡ (if elem b bs then slot_map s k else none)
  unfolding build
  build-lookup [] v v' cs h b s e k = rw (← ap first h) (unfold lookup in refl)
    where
      first : Result (Children × ℕ) → Children
      first (ok (c, w)) = c
      first _ = no_child
  build-lookup (x ∷ bs) v v' cs h b s e k =
      let (sx, fx, h1) = >>=-eq-ok (f x) _ h in
      let ((cs', w), h2, h3) = >>=-eq-ok (build f bs (bump sx v)) _ h1 in
      let ih = build-lookup bs (bump sx v) w cs' h2 b s e k in
      let same : cs ≡ add x sx cs' = cc h3 in
      rw same (elim (Bool-cases (b == x)) [
        | inl d ↦
            let ss : sx ≡ s = cc (fx, e, ==→eq _ _ d) in
            rw d (rw (ss, ← ==→eq _ _ d) (add_self b s cs' k (elem b bs) ih))
        | inr d ↦ rw d (add_other x b sx cs' k d ∙ ih)
      ])

  build_ok :
      (bs : List ℕ) (v : ℕ) {r : Children × ℕ}
      → build f bs v ≡ ok r
      → (b : ℕ) → In b bs
      → (s : Slot) × (f b ≡ ok s)
  unfolding build
  build_ok [] v h b i = absurd i
  build_ok (x ∷ bs) v h b i =
      let (sx, fx, h1) = >>=-eq-ok (f x) _ h in
      let (r', h2, h3) = >>=-eq-ok (build f bs (bump sx v)) _ h1 in
      pick sx fx i (build_ok bs (bump sx v) h2 b)
    where
      pick :
          (sx : Slot)
          → f x ≡ ok sx
          → (b ≡ x) ⊎ In b bs
          → (In b bs → (s : Slot) × (f b ≡ ok s))
          → (s : Slot) × (f b ≡ ok s)
      pick sx fx (inl e) g = (sx, rw e fx)
      pick sx fx (inr j) g = g j

  -- Each branch has a slot, and the children have the map of the slot at the branch.
  pub build-branches :
      (v : ℕ) (cs : Children) (v' : ℕ)
      → build f branches v ≡ ok (cs, v')
      → (b : ℕ) → b < 16
      → (s : Slot) × (f b ≡ ok s) × ((k : List ℕ) → lookup_child cs b k ≡ slot_map s k)
  build-branches v cs v' h b lt =
      let (s, e) = build_ok branches v h b (In-branches b lt) in
      (
        s,
        e,
        λ k.
            rw (elem-In b branches (In-branches b lt)) at (build-lookup branches v v' cs h b s e k),
      )

pub strip-append : (p q k : List ℕ) → strip (p ++ q) k ≡ after (strip p k) (strip q)
strip-append [] q k = refl
strip-append (x ∷ p) q [] = refl
strip-append (x ∷ p) q (y ∷ k) = ground (arith, strip-append p q k)

nothing : (o : Option (List ℕ)) → none ≡ after o (at_end none (lookup_child no_child))
unfolding lookup
nothing none = refl
nothing (some []) = refl
nothing (some (b ∷ r)) = refl

-- An only child whose branch joins the path.
merged :
    (b : ℕ) (n : Node) (o : Option (List ℕ))
    → after (after o (strip (b ∷ path n))) (at_end (value n) (lookup_child (children n)))
      ≡ after o (at_end none (lookup_child (child b n no_child)))
unfolding lookup
merged b n none = refl
merged b n (some []) = refl
merged b n (some (c ∷ r)) = elim (Bool-cases (b == c)) [
  | inl e ↦ rw (e, lookup) (sym (lookup_lem n r))
  | inr e ↦ rw (e, lookup)
]

join-eq-ok :
    (p : List ℕ) (b : ℕ) (q joined : List ℕ) → join p b q ≡ ok joined → p ++ (b ∷ q) ≡ joined
join-eq-ok p b q joined e =
    let (fits, made) = check-eq-ok (leb (length (p ++ (b ∷ q))) 255) _ e in cc made

made_node :
    (x : Option Node) (n : Node) (k : List ℕ) → ok (some n) ≡ ok x → lookup_root x k ≡ lookup n k
made_node x n k e = let is : some n ≡ x = cc e in rw (← is) refl

-- A node that is made, where the debug assertion that a joined path has at most 255 nibbles counts as
-- one, has the leaf at the end of its path and the children below it, also where an only child takes
-- over.
pub lookup-create_node :
    (cs : Children) (p : List ℕ) (leaf : Option (List ℕ)) (ver : ℕ) (made : Option Node)
    (k : List ℕ)
    → create_node_from_children_if_any cs p leaf ver ≡ ok made
    → lookup_root made k ≡ after (strip p k) (at_end leaf (lookup_child cs))
unfolding create_node_from_children_if_any
lookup-create_node no_child p none ver made k e =
    let is : none ≡ made = cc e in rw (← is) (unfold lookup in nothing (strip p k))
lookup-create_node no_child p (some v) ver made k e =
    made_node made _ k e ∙ lookup_lem (node p (some v) ver no_child) k
lookup-create_node (child b n no_child) p none ver made k e =
    let (joined, whole, e') = >>=-eq-ok (join p b (path n)) _ e in
    made_node made _ k e'
    ∙ lookup_lem (node joined (value n) ver (children n)) k
    ∙ rw (← join-eq-ok p b (path n) joined whole) (
        ap (λ o. after o (at_end (value n) (lookup_child (children n))))
          (strip-append p (b ∷ path n) k)
        ∙ merged b n (strip p k))
lookup-create_node (child b n no_child) p (some v) ver made k e =
    made_node made _ k e ∙ lookup_lem (node p (some v) ver (child b n no_child)) k
lookup-create_node (child b n (child c n' cs)) p leaf ver made k e =
    made_node made _ k e ∙ lookup_lem (node p leaf ver (child b n (child c n' cs))) k
