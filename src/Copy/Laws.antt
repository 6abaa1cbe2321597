-- ===== src/Copy/Laws.antt =====
-- The copy makes the map that the prefix and the two maps determine.
use nomad_mpt.Prelude.{
  ℕ, ◌+◌, ◌≡◌, ◌≢◌, refl, sym, ap, ◌∙◌, arith, ◌==◌, ==→eq, ==_self, ==_ne, ltb, lt→ltb,
  if◌then◌else◌, Bool, Bool-cases, Option-cases, true, false, inl, inr, none, some, List, [], ◌∷◌,
  ◌++◌, length, get_or, append_assoc, append-nil, length-append,
}
use nomad_mpt.Result.{ok, ◌>>=◌}
use nomad_mpt.Node.{Node, node, next_at, path, value, version, children}
use nomad_mpt.Find.{FindResult, key_ends_earlier_than_node_failure, NodeCursor, find_loop}
use nomad_mpt.Find.Walk.{find_loop_child, find_loop-path}
use nomad_mpt.Copy.{remake, set_next, Source, split_path, add_branch, copy_loop}
use nomad_mpt.Copy.Steps.{lookup-end, lookup-set_next}
use nomad_mpt.Copy.Nodes.{NoValues, Copies, NoValues-child, added, divided, get_or_shared}

-- The walk does not end inside a path.
abbrev pub Ends : List ℕ → Node → ℕ → Type 0
Ends key n i = (find_loop key n i).1 ≢ key_ends_earlier_than_node_failure

-- What the walk is about to do at `n`, behind the part `p` of its path.
pub record Suits (s : Source) (at_root : Bool) (key p rest : List ℕ) (n : Node) : Type 0 where
  pub whole : path n ≡ p ++ rest
  pub valued : at_root ≡ true → (v : List ℕ) × (s.src_value ≡ some v)
  pub bare : at_root ≡ true → path n ≡ []
  pub free : NoValues at_root (p ++ key) n
  pub ends : Ends key n (length p)

split_root :
    (s : Source) (at_root : Bool) (x y : ℕ) (key p rest : List ℕ) (n : Node)
    → path n ≡ p ++ (y ∷ rest)
    → (at_root ≡ true → path n ≡ [])
    → (x ≡ y → ⊥)
    → (r : Node) × (split_path s at_root x key n (length p) ≡ ok r)
      × Copies s at_root (p ++ (x ∷ key)) n r
split_root s true x y key p rest n whole bare ne = absurd (full p (sym whole ∙ bare refl))
  where
    full : (q : List ℕ) → q ++ (y ∷ rest) ≡ [] → ⊥
    full [] e = cc
    full (z ∷ q) e = cc
split_root s false x y key p rest n whole bare ne =
    let (r, made, copies) = divided s x y key p rest n whole ne in
    (r, made, λ k nib root. copies k nib (λ e. cc))

-- At the end of a path.
below_step :
    (s : Source) (at_root : Bool) (x : ℕ) (key p : List ℕ) (n : Node)
    → path n ≡ p
    → copy_loop s at_root (x ∷ key) n (length p) ≡ elim (next_at x (children n)) [
      | none ↦ add_branch s at_root x key n
      | some c ↦
          copy_loop s false key c 0
          >>= (λ c'. ok (node (path n) (value n) (version n) (set_next x c' (children n))))
    ]
unfolding copy_loop
below_step s at_root x key p n e =
    let done : ltb (length p) (length (path n)) ≡ false = rw e (ground arith) in rw done

along_step :
    (s : Source) (at_root : Bool) (x y : ℕ) (key p rest : List ℕ) (n : Node)
    → path n ≡ p ++ (y ∷ rest)
    → copy_loop s at_root (x ∷ key) n (length p) ≡ (
        if x == y
        then copy_loop s at_root key n (length p + 1)
        else split_path s at_root x key n (length p))
unfolding copy_loop
along_step s at_root x y key p rest n e =
    let more : ltb (length p) (length (path n)) ≡ true =
      lt→ltb _ _ (omega (arith, ap length e, length-append p (y ∷ rest))) in
    let nibble : get_or (path n) (length p) 0 ≡ y = rw e (get_or_shared p y rest) in
    rw (more, nibble)

end_step :
    (s : Source) (at_root : Bool) (p : List ℕ) (n : Node)
    → path n ≡ p
    → copy_loop s at_root [] n (length p) ≡ ok (remake s.src_node (path n) s.dest_version)
unfolding copy_loop
end_step s at_root p n e = rw (← e, ==_self (length (path n)))

inside-Ends :
    (p rest : List ℕ) (y : ℕ) (n : Node) → path n ≡ p ++ (y ∷ rest) → Ends [] n (length p) → ⊥
unfolding find_loop
inside-Ends p rest y n e ends =
    let more : (length p == length (path n)) ≡ false =
      ground (arith, ap length e, length-append p (y ∷ rest)) in
    ends (rw more)

Ends-child :
    (x : ℕ) (key p : List ℕ) (n c : Node)
    → path n ≡ p
    → next_at x (children n) ≡ some c
    → Ends (x ∷ key) n (length p)
    → Ends key c 0
Ends-child x key p n c e o ends t = ends (
    ap (λ (w : NodeCursor × FindResult). w.1) (find_loop_child n c (length p) x key (ap length e) o)
    ∙ t)

Ends-along :
    (x y : ℕ) (key p rest : List ℕ) (n : Node)
    → path n ≡ p ++ (y ∷ rest)
    → (x == y) ≡ true
    → Ends (x ∷ key) n (length p)
    → Ends key n (length p + 1)
Ends-along x y key p rest n e same ends t =
    let more : (length (path n) == length p) ≡ false =
      ground (arith, ap length e, length-append p (y ∷ rest)) in
    let nibble : get_or (path n) (length p) 0 ≡ y = rw e (get_or_shared p y rest) in
    let step : find_loop (x ∷ key) n (length p) ≡ find_loop key n (length p + 1) =
      find_loop-path n (length p) x key more ∙ rw (nibble, same) in
    ends (ap (λ (w : NodeCursor × FindResult). w.1) step ∙ t)

-- The walk from `n` on makes the map.
pub copy_loop_run :
    (s : Source) (at_root : Bool) (key p rest : List ℕ) (n : Node)
    → Suits s at_root key p rest n
    → (r : Node) × (copy_loop s at_root key n (length p) ≡ ok r) × Copies s at_root (p ++ key) n r
copy_loop_run s at_root [] p (y ∷ rest) n h = absurd (inside-Ends p rest y n h.whole h.ends)
copy_loop_run s at_root [] p [] n h =
    let whole : path n ≡ p = h.whole ∙ append-nil p in
    let prefix : p ++ [] ≡ path n = append-nil p ∙ sym whole in
    (
      remake s.src_node (path n) s.dest_version,
      end_step s at_root p n whole,
      λ k nib ne. rw prefix (lookup-end s.src_node n s.dest_version k),
    )
copy_loop_run s at_root (x ∷ key) p [] n h =
    let whole : path n ≡ p = h.whole ∙ append-nil p in
    let free : NoValues at_root (path n ++ (x ∷ key)) n = rw whole h.free in
    elim (Option-cases (next_at x (children n))) [
      | inl e ↦
          let (r, made, copies) = added s at_root x key n h.valued h.bare free e in
          (r, below_step s at_root x key p n whole ∙ rw e made, rw (← whole) copies)
      | inr (c, e) ↦
          let suits : Suits s false key [] (path c) c = record {
            whole = refl;
            valued = λ t. cc;
            bare = λ t. cc;
            free = NoValues-child at_root x key n c e free;
            ends = Ends-child x key p n c whole e h.ends;
          } in
          let (c', made, copies) = copy_loop_run s false key [] (path c) c suits in
          (
            node (path n) (value n) (version n) (set_next x c' (children n)),
            below_step s at_root x key p n whole ∙ rw (e, made),
            λ k nib ne. rw (← whole) (
                lookup-set_next s.src_node n x key c c' k e nib
                  (λ k' nib'. copies k' nib' (λ t. cc))),
          )
    ]
copy_loop_run s at_root (x ∷ key) p (y ∷ rest) n h = elim (Bool-cases (x == y)) [
  | inl same ↦
      let at = ==→eq _ _ same in
      let whole : path n ≡ (p ++ (y ∷ [])) ++ rest = h.whole ∙ sym (append_assoc p (y ∷ []) rest) in
      let prefix : p ++ (x ∷ key) ≡ (p ++ (y ∷ [])) ++ key =
        rw at (sym (append_assoc p (y ∷ []) key)) in
      let size : length (p ++ (y ∷ [])) ≡ length p + 1 = length-append p (y ∷ []) in
      let suits : Suits s at_root key (p ++ (y ∷ [])) rest n = record {
        whole = whole;
        valued = h.valued;
        bare = h.bare;
        free = rw prefix at h.free;
        ends = rw size (Ends-along x y key p rest n h.whole same h.ends);
      } in
      let (r, made, copies) = copy_loop_run s at_root key (p ++ (y ∷ [])) rest n suits in
      (
        r,
        along_step s at_root x y key p rest n h.whole ∙ rw same (rw size at made),
        rw prefix copies,
      )
  | inr apart ↦
      let ne = ==_ne _ _ apart in
      let (r, made, copies) = split_root s at_root x y key p rest n h.whole h.bare ne in
      (r, along_step s at_root x y key p rest n h.whole ∙ rw apart made, copies)
]
