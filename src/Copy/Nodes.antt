-- ===== src/Copy/Nodes.antt =====
-- The nodes that copy_trie makes along the walk.
use nomad_mpt.Prelude.{
  ℕ, ◌+◌, ◌≡◌, ◌≢◌, refl, sym, ap, ◌∙◌, arith, ◌==◌, ==_self, ltb, if◌then◌else◌, Bool, Bool-cases,
  true, false, inl, inr, Option, none, some, List, [], ◌∷◌, ◌++◌, All, length, take, drop, get_or,
  append_assoc, append-nil,
}
use nomad_mpt.Result.{ok}
use nomad_mpt.Node.{Node, node, no_child, child, next_at, path, value, version, children}
use nomad_mpt.Lookup.{strip, lookup, lookup_child-next_at}
use nomad_mpt.Nibbles.Bytes.{IsNibble}
use nomad_mpt.Copy.{
  remake, add_branch_loop, create_node_add_new_branch, create_node_with_two_children, new_value,
  Source, split_path, add_branch,
}
use nomad_mpt.Rlp.Spans.{take-append, drop-append, drop-drop}
use nomad_mpt.Copy.Steps.{below, copied, lookup-below, lookup-add_branch, lookup-split}

-- No key that is a part of the prefix has a value, the empty one at the root excepted.
abbrev pub NoValues : Bool → List ℕ → Node → Type 0
NoValues at_root prefix n =
    (q r : List ℕ) → prefix ≡ q ++ r → r ≢ [] → (at_root ≡ true → q ≢ []) → lookup n q ≡ none

-- What the copy makes of a node.
abbrev pub Copies : Source → Bool → List ℕ → Node → Node → Type 0
Copies s at_root prefix n r =
    (k : List ℕ)
    → All IsNibble k
    → (at_root ≡ true → k ≢ [])
    → lookup r k ≡ copied prefix s.src_node (lookup n) k

strip_self : (p k : List ℕ) → strip p (p ++ k) ≡ some k
strip_self [] k = refl
strip_self (x ∷ p) k = rw (==_self x) (strip_self p k)

lookup-path : (n : Node) (k : List ℕ) → lookup n (path n ++ k) ≡ below n k
lookup-path n k = lookup-below n (path n ++ k) ∙ rw (strip_self (path n) k)

pub NoValues-child :
    (at_root : Bool) (x : ℕ) (prefix : List ℕ) (n c : Node)
    → next_at x (children n) ≡ some c
    → NoValues at_root (path n ++ (x ∷ prefix)) n
    → NoValues false prefix c
NoValues-child at_root x prefix n c e h q r split ne root =
    let whole : path n ++ (x ∷ prefix) ≡ (path n ++ (x ∷ q)) ++ r = rw (split, append_assoc) refl in
    let here = h (path n ++ (x ∷ q)) r whole ne (λ t. longer (path n)) in
    sym (lookup-path n (x ∷ q) ∙ lookup_child-next_at (children n) x q ∙ rw e) ∙ here
  where
    longer : (p : List ℕ) → p ++ (x ∷ q) ≢ []
    longer [] e = cc
    longer (y ∷ p) e = cc

-- The value of a new branch node at the end of a path.
branch_value :
    (s : Source) (at_root : Bool) (x : ℕ) (prefix : List ℕ) (n : Node)
    → (at_root ≡ true → (v : List ℕ) × (s.src_value ≡ some v))
    → (at_root ≡ true → path n ≡ [])
    → NoValues at_root (path n ++ (x ∷ prefix)) n
    → (opt : Option (List ℕ)) × (new_value at_root s.src_value ≡ ok opt)
      × ((k : List ℕ) → (at_root ≡ true → k ≢ []) → k ≡ path n → opt ≡ value n)
unfolding new_value
branch_value s true x prefix n valued bare h =
    let (v, e) = valued refl in (some v, rw e, λ k ne at. absurd (ne refl (at ∙ bare refl)))
branch_value s false x prefix n valued bare h = (
  none,
  refl,
  λ k ne at. sym (
      sym (rw append-nil at (lookup-path n [])) ∙ h (path n) (x ∷ prefix) refl (λ e. cc) (λ t. cc)),
)

pub added :
    (s : Source) (at_root : Bool) (x : ℕ) (prefix : List ℕ) (n : Node)
    → (at_root ≡ true → (v : List ℕ) × (s.src_value ≡ some v))
    → (at_root ≡ true → path n ≡ [])
    → NoValues at_root (path n ++ (x ∷ prefix)) n
    → next_at x (children n) ≡ none
    → (r : Node) × (add_branch s at_root x prefix n ≡ ok r)
      × Copies s at_root (path n ++ (x ∷ prefix)) n r
unfolding add_branch create_node_add_new_branch
added s at_root x prefix n valued bare h e =
    let (opt, made, same) = branch_value s at_root x prefix n valued bare h in
    (
      node (path n) opt s.dest_version
          (add_branch_loop (children n) x (remake s.src_node prefix (version s.src_node)) 16 0),
      rw made,
      λ k nib ne.
          lookup-add_branch s.src_node n x prefix (version s.src_node) s.dest_version opt k e nib
            (λ at. same k ne at),
    )

-- The two children, in the order of their branches.
two_children :
    (x y : ℕ) (a b : Node)
    → (x ≡ y → ⊥)
    → let two =
        if ltb x y then child x a (child y b no_child) else child y b (child x a no_child) in
      (next_at x two ≡ some a)
      × (next_at y two ≡ some b)
      × ((z : ℕ) → (z == x) ≡ false → (z == y) ≡ false → next_at z two ≡ none)
unfolding next_at
two_children x y a b ne = elim (Bool-cases (ltb x y)) [
  | inl e ↦
      let apart : (x == y) ≡ false = ground (arith, ne) in
      rw e (ground arith, ground arith, λ z f g. ground arith)
  | inr e ↦
      let apart : (y == x) ≡ false = ground (arith, ne) in
      rw e (ground arith, ground arith, λ z f g. ground arith)
]

module _ (p : List ℕ) (y : ℕ) (rest : List ℕ) where
  take_shared : take (length p) (p ++ (y ∷ rest)) ≡ p
  take_shared = take-append p (y ∷ rest)

  pub get_or_shared : get_or (p ++ (y ∷ rest)) (length p) 0 ≡ y
  get_or_shared = at_length p
    where
      at_length : (q : List ℕ) → get_or (q ++ (y ∷ rest)) (length q) 0 ≡ y
      at_length [] = refl
      at_length (x ∷ q) = at_length q

  drop_shared : drop (length p + 1) (p ++ (y ∷ rest)) ≡ rest
  drop_shared =
      sym (drop-drop (length p) 1 (p ++ (y ∷ rest))) ∙ ap (drop 1) (drop-append p (y ∷ rest))

-- The prefix leaves the path of a node that is not the root.
pub divided :
    (s : Source) (x y : ℕ) (key p rest : List ℕ) (n : Node)
    → path n ≡ p ++ (y ∷ rest)
    → (x ≡ y → ⊥)
    → (r : Node) × (split_path s false x key n (length p) ≡ ok r)
      × Copies s false (p ++ (x ∷ key)) n r
unfolding split_path create_node_with_two_children new_value
divided s x y key p rest n whole ne =
    let a = remake s.src_node key (version s.src_node) in
    let b = remake n rest (version n) in
    let (left, right, other) = two_children x y a b ne in
    (
      node p none s.dest_version
          (if ltb x y then child x a (child y b no_child) else child y b (child x a no_child)),
      rw (whole, take_shared p y rest, get_or_shared p y rest, drop_shared p y rest),
      λ k nib root.
          lookup-split s.src_node n x y key p rest (version s.src_node) (version n) s.dest_version
            (if ltb x y then child x a (child y b no_child) else child y b (child x a no_child)) k
            whole ne left right other,
    )
