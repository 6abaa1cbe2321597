-- ===== src/Lookup.antt =====
-- What a trie means: the partial map from keys, sequences of nibbles, to values. It is written on
-- the tree of `Node`, not on the code that walks it.
use nomad_mpt.Prelude.{ℕ, ◌==◌, if◌then◌else◌, Option, none, some, List, [], ◌∷◌, drop}
use nomad_mpt.Prelude.{◌≡◌, refl, arith}
use nomad_mpt.Node.{Node, node, Children, no_child, child, next_at, path, value, children}

-- What follows the prefix `p` in `k`.
abbrev pub strip : List ℕ → List ℕ → Option (List ℕ)
strip [] k = some k
strip (x ∷ p) [] = none
strip (x ∷ p) (y ∷ k) = if x == y then strip p k else none

unfoldable mutual
  pub lookup : Node → List ℕ → Option (List ℕ)
  lookup (node p v ver cs) k = elim (strip p k) [
    | none ↦ none
    | some r ↦ elim r [ [] ↦ v | b ∷ r' ↦ lookup_child cs b r' ]
  ]

  pub lookup_child : Children → ℕ → List ℕ → Option (List ℕ)
  lookup_child no_child b k = none
  lookup_child (child c n cs) b k =
      let here = lookup n k in let later = lookup_child cs b k in if c == b then here else later

-- The null pointer is the empty trie.
abbrev pub lookup_root : Option Node → List ℕ → Option (List ℕ)
lookup_root none k = none
lookup_root (some n) k = lookup n k

-- A map for what follows a path: a value at its end, a map below each branch.
abbrev pub at_end : Option (List ℕ) → (ℕ → List ℕ → Option (List ℕ)) → List ℕ → Option (List ℕ)
at_end v below [] = v
at_end v below (b ∷ r) = below b r

abbrev pub after : Option (List ℕ) → (List ℕ → Option (List ℕ)) → Option (List ℕ)
after none f = none
after (some r) f = f r

-- The map below the first `q` nibbles of a node's path.
abbrev pub lookup_from : ℕ → Node → List ℕ → Option (List ℕ)
lookup_from q n k = after (strip (drop q (path n)) k) (at_end (value n) (lookup_child (children n)))

pub lookup_lem : (n : Node) (k : List ℕ) → lookup n k ≡ lookup_from 0 n k
unfolding lookup
lookup_lem (node p v ver cs) k = ground arith

pub lookup_child-next_at :
    (cs : Children) (b : ℕ) (k : List ℕ) → lookup_child cs b k ≡ lookup_root (next_at b cs) k
unfolding lookup next_at
lookup_child-next_at no_child b k = refl
lookup_child-next_at (child c n cs) b k = ground (arith, lookup_child-next_at cs b k)
