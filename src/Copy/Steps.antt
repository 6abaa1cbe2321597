-- ===== src/Copy/Steps.antt =====
-- The map of each node that copy_trie makes, against the map of the node that it stands in for.
use nomad_mpt.Prelude.{
  ℕ, ◌≡◌, refl, sym, ap, ◌∙◌, arith, ◌==◌, ==→eq, Bool-cases, true, false, inl, inr, Option, none,
  some, List, [], ◌∷◌, ◌++◌, All,
}
use nomad_mpt.Node.{Node, node, Children, next_at, path, value, version, children}
use nomad_mpt.Lookup.{strip, lookup, lookup_child, at_end, after, lookup_lem, lookup_child-next_at}
use nomad_mpt.Apply.{Map, rest_or}
use nomad_mpt.Upsert.Build.{strip-append}
use nomad_mpt.Upsert.Tables.{strip-IsNibble}
use nomad_mpt.Nibbles.Bytes.{IsNibble}
use nomad_mpt.Copy.{remake, add_branch_loop, set_next}
use nomad_mpt.Copy.Merge.{next_at-add_branch_loop, next_at-set_next}

-- The keys below the end of a node's path.
abbrev pub below : Node → Map
below n = at_end (value n) (lookup_child (children n))

-- A map in which what extends `prefix` is replaced by the keys below the source.
abbrev pub copied : List ℕ → Node → Map → Map
copied prefix src m k = rest_or (strip prefix k) (below src) (m k)

pub lookup-below : (n : Node) (k : List ℕ) → lookup n k ≡ after (strip (path n) k) (below n)
lookup-below n k = lookup_lem n k

-- At the end of the prefix.
end_map :
    (src n : Node) (v : ℕ) (o : Option (List ℕ))
    → after o (below src) ≡ rest_or o (below src) (after o (below n))
unfolding rest_or
end_map src n v none = refl
end_map src n v (some k) = refl

pub lookup-end :
    (src n : Node) (v : ℕ) (k : List ℕ)
    → lookup (remake src (path n) v) k ≡ copied (path n) src (lookup n) k
lookup-end src n v k =
    lookup-below (remake src (path n) v) k
    ∙ end_map src n v (strip (path n) k)
    ∙ ap (rest_or (strip (path n) k) (below src)) (sym (lookup-below n k))

after-after :
    (o : Option (List ℕ)) (f : List ℕ → Option (List ℕ)) (g : Map)
    → after (after o f) g ≡ after o (λ k. after (f k) g)
after-after none f g = refl
after-after (some k) f g = refl

pub lookup_child-remake :
    (src : Node) (key : List ℕ) (v : ℕ) (m : Map) (k : List ℕ)
    → m k ≡ none
    → lookup (remake src key v) k ≡ rest_or (strip key k) (below src) (m k)
unfolding rest_or
lookup_child-remake src key v m k e = lookup-below (remake src key v) k ∙ rw e (miss (strip key k))
  where
    miss : (o : Option (List ℕ)) → after o (below src) ≡ rest_or o (below src) none
    miss none = refl
    miss (some r) = refl

strip-nil : (p k : List ℕ) → strip p k ≡ some [] → k ≡ p
strip-nil [] k e = cc
strip-nil (x ∷ p) [] e = cc
strip-nil (x ∷ p) (y ∷ k) e = elim (Bool-cases (x == y)) [
  | inl t ↦ let same = strip-nil p k (rw t at e) in let here = ==→eq _ _ t in cc
  | inr f ↦ let no : none ≡ some [] = rw f at e in cc
]

module _ (src n : Node) (x : ℕ) (key : List ℕ) where
  -- Where the prefix goes on in a child.
  child_map :
      (c c' : Node) (o : Option (List ℕ))
      → next_at x (children n) ≡ some c
      → ((k : List ℕ) → o ≡ some k → All IsNibble k)
      → ((k : List ℕ) → All IsNibble k → lookup c' k ≡ copied key src (lookup c) k)
      → after o (at_end (value n) (lookup_child (set_next x c' (children n))))
        ≡ rest_or (after o (strip (x ∷ key))) (below src) (after o (below n))
  unfolding rest_or
  child_map c c' none e nib ih = refl
  child_map c c' (some []) e nib ih = refl
  child_map c c' (some (b ∷ k)) e nib ih =
      rw
        (
          lookup_child-next_at (set_next x c' (children n)) b k,
          lookup_child-next_at (children n) b k,
          next_at-set_next (children n) x b c c' e,
        )
        (elim (Bool-cases (b == x)) [
          | inl t ↦
              let same = ==→eq _ _ t in
              let other : (x == b) ≡ true = ground arith in
              rw (t, other, same, e) (ih k (nib (b ∷ k) refl).1)
          | inr f ↦ let other : (x == b) ≡ false = ground arith in rw (f, other)
        ])

  pub lookup-set_next :
      (c c' : Node) (k : List ℕ)
      → next_at x (children n) ≡ some c
      → All IsNibble k
      → ((k' : List ℕ) → All IsNibble k' → lookup c' k' ≡ copied key src (lookup c) k')
      → lookup (node (path n) (value n) (version n) (set_next x c' (children n))) k
        ≡ copied (path n ++ (x ∷ key)) src (lookup n) k
  lookup-set_next c c' k e nib ih =
      lookup-below (node (path n) (value n) (version n) (set_next x c' (children n))) k
      ∙ child_map c c' (strip (path n) k) e (λ r is. strip-IsNibble (path n) k is nib) ih
      ∙ rw (strip-append (path n) (x ∷ key) k, lookup-below n k)

  -- Where the prefix leaves the branches of `n`.
  branch_map :
      (v : ℕ) (opt : Option (List ℕ)) (o : Option (List ℕ))
      → next_at x (children n) ≡ none
      → ((k : List ℕ) → o ≡ some k → All IsNibble k)
      → (o ≡ some [] → opt ≡ value n)
      → after o (at_end opt (lookup_child (add_branch_loop (children n) x (remake src key v) 16 0)))
        ≡ rest_or (after o (strip (x ∷ key))) (below src) (after o (below n))
  unfolding rest_or
  branch_map v opt none e nib same = refl
  branch_map v opt (some []) e nib same = same refl
  branch_map v opt (some (b ∷ k)) e nib same =
      let small = (nib (b ∷ k) refl).0 in
      rw
        (
          lookup_child-next_at (add_branch_loop (children n) x (remake src key v) 16 0) b k,
          lookup_child-next_at (children n) b k,
          next_at-add_branch_loop (children n) x (remake src key v) 16 0 b (omega arith) small,
        )
        (elim (Bool-cases (b == x)) [
          | inl t ↦
              let same = ==→eq _ _ t in
              let other : (x == b) ≡ true = ground arith in
              rw (t, other, same, e) (lookup_child-remake src key v (λ r. none) k refl)
          | inr f ↦ let other : (x == b) ≡ false = ground arith in rw (f, other)
        ])

  pub lookup-add_branch :
      (v w : ℕ) (opt : Option (List ℕ)) (k : List ℕ)
      → next_at x (children n) ≡ none
      → All IsNibble k
      → (k ≡ path n → opt ≡ value n)
      → lookup (node (path n) opt w (add_branch_loop (children n) x (remake src key v) 16 0)) k
        ≡ copied (path n ++ (x ∷ key)) src (lookup n) k
  lookup-add_branch v w opt k e nib same =
      lookup-below (node (path n) opt w (add_branch_loop (children n) x (remake src key v) 16 0)) k
      ∙ branch_map v opt (strip (path n) k) e (λ r is. strip-IsNibble (path n) k is nib)
          (λ is. same (strip-nil (path n) k is))
      ∙ rw (strip-append (path n) (x ∷ key) k, lookup-below n k)

-- Where the prefix leaves the path of `n`: `p` is the part that they share.
module _ (src n : Node) (x y : ℕ) (key p rest : List ℕ) (v w : ℕ) where
  two_map :
      (two : Children) (o : Option (List ℕ))
      → (x ≡ y → ⊥)
      → next_at x two ≡ some (remake src key v)
      → next_at y two ≡ some (remake n rest w)
      → ((b : ℕ) → (b == x) ≡ false → (b == y) ≡ false → next_at b two ≡ none)
      → after o (at_end none (lookup_child two))
        ≡ rest_or
            (after o (strip (x ∷ key)))
            (below src)
            (after (after o (strip (y ∷ rest))) (below n))
  unfolding rest_or
  two_map two none ne ex ey other = refl
  two_map two (some []) ne ex ey other = refl
  two_map two (some (b ∷ k)) ne ex ey other =
      rw (lookup_child-next_at two b k) (elim (Bool-cases (b == x)) [
        | inl t ↦
            let same = ==→eq _ _ t in
            let there : (x == b) ≡ true = ground arith in
            let apart : (y == b) ≡ false = ground (arith, ne) in
            rw (there, apart, same, ex) (lookup_child-remake src key v (λ r. none) k refl)
        | inr f ↦
            let apart : (x == b) ≡ false = ground arith in
            elim (Bool-cases (b == y)) [
              | inl t ↦
                  let same = ==→eq _ _ t in
                  let there : (y == b) ≡ true = ground arith in
                  rw (apart, there, same, ey) (lookup-below (remake n rest w) k)
              | inr g ↦ let away : (y == b) ≡ false = ground arith in rw (apart, away, other b f g)
            ]
      ])

  pub lookup-split :
      (u : ℕ) (two : Children) (k : List ℕ)
      → path n ≡ p ++ (y ∷ rest)
      → (x ≡ y → ⊥)
      → next_at x two ≡ some (remake src key v)
      → next_at y two ≡ some (remake n rest w)
      → ((b : ℕ) → (b == x) ≡ false → (b == y) ≡ false → next_at b two ≡ none)
      → lookup (node p none u two) k ≡ copied (p ++ (x ∷ key)) src (lookup n) k
  lookup-split u two k whole ne ex ey other =
      lookup-below (node p none u two) k
      ∙ two_map two (strip p k) ne ex ey other
      ∙ rw (strip-append p (x ∷ key) k, lookup-below n k, whole, strip-append p (y ∷ rest) k)
