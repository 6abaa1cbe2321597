-- ===== src/Copy/Contract.antt =====
-- copy_trie_impl makes the map of the destination with the keys below the prefix replaced.
use nomad_mpt.Prelude.{
  ℕ, ◌≡◌, ◌≢◌, refl, sym, ap, ◌∙◌, arith, ◌==◌, Bool-cases, Option-cases, true, inl, inr, Option,
  none, some, List, [], ◌∷◌, ◌++◌, All, length, drop_all,
}
use nomad_mpt.Result.{ok}
use nomad_mpt.Node.{Node, node, child, no_child, path, value, next_at}
use nomad_mpt.Lookup.{strip, lookup, lookup_root, after, lookup_lem, lookup_child-next_at}
use nomad_mpt.Apply.{Map, rest_or}
use nomad_mpt.Nibbles.Bytes.{IsNibble}
use nomad_mpt.Find.{FindResult, success, NodeCursor, find_blocking}
use nomad_mpt.Find.Walk.{keys_below, find_blocking-lookup, Stopped, find_loop-Stopped}
use nomad_mpt.Copy.{remake, new_value, Source, new_root, copy_into, found_node, copy_trie_impl}
use nomad_mpt.Copy.Steps.{below, copied, lookup-below, lookup_child-remake}
use nomad_mpt.Copy.Nodes.{NoValues}
use nomad_mpt.Copy.Laws.{Ends, Suits, copy_loop_run}

-- The destinations that the copy is meant for: none and a prefix, or a root with no path, where no part of
-- the prefix but the empty one is a key and the prefix does not end inside a path.
abbrev pub Fits : Option Node → List ℕ → Type 0
Fits none prefix = prefix ≢ []
Fits (some n) prefix = (path n ≡ []) × NoValues true prefix n × Ends prefix n 0

one_child :
    (src : Node) (x : ℕ) (prefix k : List ℕ) (v ver : ℕ) (opt : Option (List ℕ))
    → k ≢ []
    → lookup (node [] opt ver (child x (remake src prefix v) no_child)) k
      ≡ copied (x ∷ prefix) src (λ k'. none) k
unfolding rest_or next_at
one_child src x prefix [] v ver opt full = absurd (full refl)
one_child src x prefix (b ∷ k) v ver opt full =
    lookup-below (node [] opt ver (child x (remake src prefix v) no_child)) (b ∷ k)
    ∙ lookup_child-next_at (child x (remake src prefix v) no_child) b k
    ∙ elim (Bool-cases (x == b)) [
      | inl t ↦ rw t (lookup_child-remake src prefix v (λ r. none) k refl)
      | inr f ↦ rw f
    ]

new_root_run :
    (s : Source) (v prefix : List ℕ)
    → s.src_value ≡ some v
    → prefix ≢ []
    → (r : Node) × (new_root s prefix ≡ ok r)
      × ((k : List ℕ) → k ≢ [] → lookup r k ≡ copied prefix s.src_node (λ k'. none) k)
unfolding new_root new_value
new_root_run s v [] e ne = absurd (ne refl)
new_root_run s v (x ∷ prefix) e ne = (
  node [] (some v) s.dest_version (child x (remake s.src_node prefix s.dest_version) no_child),
  rw e,
  λ k full. one_child s.src_node x prefix k s.dest_version s.dest_version (some v) full,
)

copy_into_run :
    (s : Source) (v : List ℕ) (dest_root : Option Node) (prefix : List ℕ)
    → s.src_value ≡ some v
    → Fits dest_root prefix
    → (r : Node) × (copy_into s dest_root prefix ≡ ok r)
      × ((k : List ℕ)
          → All IsNibble k
          → k ≢ []
          → lookup r k ≡ copied prefix s.src_node (lookup_root dest_root) k)
unfolding copy_into
copy_into_run s v none prefix e ne =
    let (r, made, map) = new_root_run s v prefix e ne in (r, made, λ k nib full. map k full)
copy_into_run s v (some n) prefix e (bare, free, ends) =
    let suits : Suits s true prefix [] [] n = record {
      whole = bare;
      valued = λ t. (v, e);
      bare = λ t. bare;
      free = free;
      ends = ends;
    } in
    let (r, made, copies) = copy_loop_run s true prefix [] [] n suits in
    (r, made, λ k nib full. copies k nib (λ t. full))

-- At a success the cursor's node holds the keys that extend the prefix.
found_run :
    (c : NodeCursor) (r : FindResult)
    → r ≡ success
    → Stopped c.node c.prefix_index r
    → (src : Node) × (found_node c r ≡ ok src) × ((k : List ℕ) → below src k ≡ keys_below c r k)
unfolding found_node
found_run c r e h = elim (Option-cases c.node) [
  | inl o ↦ absurd (rw (e, o) at h)
  | inr (n, o) ↦
      let at : c.prefix_index ≡ length (path n) = rw (e, o) at h in
      (
        n,
        rw (e, o),
        λ k.
            rw (e, o)
              (sym (
                ap (λ (p : List ℕ). after (strip p k) (below n))
                  (drop_all (path n) c.prefix_index (omega (arith, at))))),
      )
]

rest_or_cong :
    (o : Option (List ℕ)) (f g : Map) (other : Option (List ℕ))
    → ((k : List ℕ) → f k ≡ g k)
    → rest_or o f other ≡ rest_or o g other
unfolding rest_or
rest_or_cong none f g other h = refl
rest_or_cong (some r) f g other h = h r

-- Where the walk down the source's prefix succeeds, the source's root has a value and the destination is
-- none, with a prefix that is not empty, or a root with no path, where no proper part of the prefix but the
-- empty one is a key and the prefix does not end inside a path: copy_trie_impl passes all its assertions.
-- In the map of its result, at every sequence of nibbles but the empty one, what follows the
-- destination's prefix is read behind the source's prefix in the source, and every other key is read in
-- the destination.
pub copy_trie_impl_lem :
    (src_root : Node) (src_prefix : List ℕ) (dest_root : Option Node) (dest_prefix : List ℕ)
    (dest_version : ℕ) (v : List ℕ)
    → (find_blocking (record { node = some src_root; prefix_index = 0 }) src_prefix).1 ≡ success
    → value src_root ≡ some v
    → Fits dest_root dest_prefix
    → (r : Node) × (copy_trie_impl src_root src_prefix dest_root dest_prefix dest_version ≡ ok r)
      × ((k : List ℕ)
          → All IsNibble k
          → k ≢ []
          → lookup r k
            ≡ rest_or
                (strip dest_prefix k)
                (λ k'. lookup src_root (src_prefix ++ k'))
                (lookup_root dest_root k))
unfolding copy_trie_impl
copy_trie_impl_lem src_root src_prefix dest_root dest_prefix dest_version v succeeded e fits =
    let walk = find_blocking (record { node = some src_root; prefix_index = 0 }) src_prefix in
    let stopped : Stopped walk.0.node walk.0.prefix_index walk.1 =
      unfold find_blocking in find_loop-Stopped src_prefix src_root 0 (omega arith) in
    let (src, at, keys) = found_run walk.0 walk.1 succeeded stopped in
    let s : Source = record {
      src_node = src;
      src_value = value src_root;
      dest_version = dest_version;
    } in
    let (r, made, map) = copy_into_run s v dest_root dest_prefix e fits in
    let read = λ (k : List ℕ).
      keys k
      ∙ find_blocking-lookup src_root 0 src_prefix k (omega arith)
      ∙ sym (lookup_lem src_root (src_prefix ++ k)) in
    (
      r,
      rw at made,
      λ k nib full.
          map k nib full
          ∙ rest_or_cong (strip dest_prefix k) (below src)
              (λ k'. lookup src_root (src_prefix ++ k')) (lookup_root dest_root k) read,
    )
