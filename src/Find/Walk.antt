-- ===== src/Find/Walk.antt =====
-- Where `find_blocking` stops, against the map of the trie.
use nomad_mpt.Prelude.{
  ℕ, ◌+◌, ◌<◌, ◌≤◌, ◌==◌, if◌then◌else◌, get_or, length, Option, none, some, List, [], ◌∷◌, ◌++◌,
}
use nomad_mpt.Prelude.{
  ◌≡◌, refl, sym, ◌∙◌, arith, Bool-cases, inl, inr, ==→eq, drop-get_or, drop_all, false,
  Option-cases, ==_self, append-nil,
}
use nomad_mpt.Node.{Node, path, value, children, next_at}
use nomad_mpt.Lookup.{lookup, lookup_from, lookup_lem, lookup_child-next_at, lookup_root}
use nomad_mpt.Find.{FindResult, NodeCursor, find_loop, find_blocking}
use nomad_mpt.Find.{
  success, root_node_is_null_failure, key_mismatch_failure, branch_not_exist_failure,
}
use nomad_mpt.Find.{key_ends_earlier_than_node_failure}

abbrev pub below_cursor : Option Node → ℕ → List ℕ → Option (List ℕ)
below_cursor none i k = none
below_cursor (some n) i k = lookup_from i n k

-- What a result says of the keys that begin with the one searched: the map below the cursor, or
-- that there are none.
abbrev pub keys_below : NodeCursor → FindResult → List ℕ → Option (List ℕ)
keys_below c success k = below_cursor c.node c.prefix_index k
keys_below c key_ends_earlier_than_node_failure k = below_cursor c.node c.prefix_index k
keys_below c key_mismatch_failure k = none
keys_below c branch_not_exist_failure k = none
keys_below c root_node_is_null_failure k = none

lookup_from_step :
    (n : Node) (i x : ℕ) (k : List ℕ)
    → i < length (path n)
    → lookup_from i n (x ∷ k) ≡ (if x == get_or (path n) i 0 then lookup_from (i + 1) n k else none)
lookup_from_step n i x k h = rw (drop-get_or (path n) i 0 h) (ground arith)

lookup_from_end :
    (n : Node) (i x : ℕ) (k : List ℕ)
    → length (path n) ≡ i
    → lookup_from i n (x ∷ k) ≡ lookup_root (next_at x (children n)) k
lookup_from_end n i x k e =
    rw (drop_all (path n) i (omega arith)) (lookup_child-next_at (children n) x k)

-- The three ways that a round of the loop goes on a nibble.
find_loop_end :
    (n : Node) (i x : ℕ) (key : List ℕ)
    → length (path n) ≡ i
    → next_at x (children n) ≡ none
    → find_loop (x ∷ key) n i
      ≡ (record { node = some n; prefix_index = i }, branch_not_exist_failure)
unfolding find_loop
find_loop_end n i x key e o = rw (e, ==_self i, o, find_loop)

pub find_loop_child :
    (n c : Node) (i x : ℕ) (key : List ℕ)
    → length (path n) ≡ i
    → next_at x (children n) ≡ some c
    → find_loop (x ∷ key) n i ≡ find_loop key c 0
unfolding find_loop
find_loop_child n c i x key e o = rw (e, ==_self i, o, find_loop)

pub find_loop-path :
    (n : Node) (i x : ℕ) (key : List ℕ)
    → (length (path n) == i) ≡ false
    → find_loop (x ∷ key) n i ≡ (
        if x == get_or (path n) i 0
        then find_loop key n (i + 1)
        else (record { node = some n; prefix_index = i }, key_mismatch_failure))
unfolding find_loop
find_loop-path n i x key e = rw (e, find_loop)

find_loop-lookup :
    (key : List ℕ) (n : Node) (i : ℕ) (k : List ℕ)
    → i ≤ length (path n)
    → keys_below (find_loop key n i).0 (find_loop key n i).1 k ≡ lookup_from i n (key ++ k)
find_loop-lookup [] n i k h = unfold find_loop in ground arith
find_loop-lookup (x ∷ key) n i k h = elim (Bool-cases (length (path n) == i)) [
  | inl t ↦ elim (Option-cases (next_at x (children n))) [
    | inl o ↦
        rw (
          find_loop_end n i x key (==→eq _ _ t) o,
          lookup_from_end n i x (key ++ k) (==→eq _ _ t),
          o,
        )
    | inr (c, o) ↦
        rw
          (
            find_loop_child n c i x key (==→eq _ _ t) o,
            lookup_from_end n i x (key ++ k) (==→eq _ _ t),
            o,
          )
          (find_loop-lookup key c 0 k (omega arith) ∙ sym (lookup_lem c (key ++ k)))
  ]
  | inr f ↦
      rw (find_loop-path n i x key f, lookup_from_step n i x (key ++ k) (ground arith))
        (elim (Bool-cases (x == get_or (path n) i 0)) [
          | inl t ↦ rw t (find_loop-lookup key n (i + 1) k (ground arith))
          | inr d ↦ rw d
        ])
]

-- From a cursor whose index is inside its path, the outcome of `find_blocking` is the map of the
-- trie below the cursor and the key: at a success, or where the
-- key ends inside a path, the cursor stands for exactly the keys that extend it; at a mismatch or
-- a missing branch the trie has no such key.
pub find_blocking-lookup :
    (n : Node) (i : ℕ) (key k : List ℕ)
    → i ≤ length (path n)
    → let (c, r) = find_blocking (record { node = some n; prefix_index = i }) key in
      keys_below c r k ≡ lookup_from i n (key ++ k)
unfolding find_blocking
find_blocking-lookup n i key k h = find_loop-lookup key n i k h

-- The value that a caller reads at a success.
abbrev pub found : NodeCursor → FindResult → Option (List ℕ)
found c success = elim c.node [ none ↦ none | some n ↦ value n ]
found c root_node_is_null_failure = none
found c key_mismatch_failure = none
found c branch_not_exist_failure = none
found c key_ends_earlier_than_node_failure = none

-- Where the cursor stands: at the end of its node's path at a success, inside the path where the
-- key ended first.
abbrev pub Stopped : Option Node → ℕ → FindResult → Type 0
Stopped none i success = ⊥
Stopped (some n) i success = i ≡ length (path n)
Stopped none i key_ends_earlier_than_node_failure = ⊥
Stopped (some n) i key_ends_earlier_than_node_failure = i < length (path n)
Stopped o i key_mismatch_failure = Unit
Stopped o i branch_not_exist_failure = Unit
Stopped o i root_node_is_null_failure = Unit

pub find_loop-Stopped :
    (key : List ℕ) (n : Node) (i : ℕ)
    → i ≤ length (path n)
    → Stopped (find_loop key n i).0.node (find_loop key n i).0.prefix_index (find_loop key n i).1
find_loop-Stopped [] n i h =
    unfold find_loop in
    elim (Bool-cases (i == length (path n))) [
      | inl e ↦ rw e (==→eq _ _ e)
      | inr e ↦ rw e (ground arith)
    ]
find_loop-Stopped (x ∷ key) n i h = elim (Bool-cases (length (path n) == i)) [
  | inl t ↦ elim (Option-cases (next_at x (children n))) [
    | inl o ↦ rw (find_loop_end n i x key (==→eq _ _ t) o) tt
    | inr (c, o) ↦
        rw (find_loop_child n c i x key (==→eq _ _ t) o) (find_loop-Stopped key c 0 (omega arith))
  ]
  | inr f ↦ rw (find_loop-path n i x key f) (elim (Bool-cases (x == get_or (path n) i 0)) [
    | inl t ↦ rw t (find_loop-Stopped key n (i + 1) (ground arith))
    | inr d ↦ rw d tt
  ])
]

at_success :
    (o : Option Node) (i : ℕ)
    → Stopped o i success
    → elim o [ none ↦ none | some n ↦ value n ] ≡ below_cursor o i []
at_success none i h = refl
at_success (some n) i h = rw (drop_all (path n) i (omega arith))

inside :
    (o : Option Node) (i : ℕ)
    → Stopped o i key_ends_earlier_than_node_failure
    → none ≡ below_cursor o i []
inside none i h = refl
inside (some n) i h = rw (drop-get_or (path n) i 0 h)

found-keys_below :
    (c : NodeCursor) (r : FindResult)
    → Stopped c.node c.prefix_index r
    → found c r ≡ keys_below c r []
found-keys_below c success h = at_success c.node c.prefix_index h
found-keys_below c key_ends_earlier_than_node_failure h = inside c.node c.prefix_index h
found-keys_below c key_mismatch_failure h = refl
found-keys_below c branch_not_exist_failure h = refl
found-keys_below c root_node_is_null_failure h = refl

-- `find_blocking` finds exactly the keys of the trie's map, each with its value.
pub found-find_blocking :
    (n : Node) (key : List ℕ)
    → let (c, r) = find_blocking (record { node = some n; prefix_index = 0 }) key in
      found c r ≡ lookup n key
found-find_blocking n key =
    let (c, r) = find_blocking (record { node = some n; prefix_index = 0 }) key in
    found-keys_below c r (unfold find_blocking in find_loop-Stopped key n 0 (omega arith))
    ∙ find_blocking-lookup n 0 key [] (omega arith)
    ∙ (rw append-nil (sym (lookup_lem n key)))
