-- ===== src/Lru/Contract.antt =====
-- The cache does what the bounded list of entries does.
use nomad_mpt.Prelude.{
  ℕ, ◌<◌, ◌≡◌, refl, sym, ap, ◌∙◌, ◌⊎◌, arith, Bool, true, false, Option-cases, inl, inr, Option,
  none, some, List, [], ◌∷◌, length, All,
}
use nomad_mpt.Prelude.{◌==◌, ==_self, if◌then◌else◌, ltb, lt→ltb}
use nomad_mpt.Lru.{
  KeyTest, Cache, unlink, last, set_node, clear, update_lru, reuse, evict, insert, find,
}
use nomad_mpt.Lru.Lists.{Not, Not-unlink, In-last, last-some}
use nomad_mpt.Lru.Spec.{value_of, remove, but_last, last_value, put, touch}
use nomad_mpt.Lru.Entries.{
  entries_of, entries, Mapped, IsCache, length-entries_of, value_hit, value_miss, remove-entries_of,
  entries_of-set_node, entries_of-last,
}
use nomad_mpt.Result.{ok, aborted}
use nomad_mpt.Lru.{new_cache, free_nodes, upto}
use nomad_mpt.Lru.Lists.{Unique-upto, All-trivial, length-upto}
use nomad_mpt.Lru.Laws.{
  touched-IsCache, rewritten-IsCache, reused-IsCache, freed-Detached, evicted-Detached,
}

module _ {K V : Type 0} (t : KeyTest K) where
  free_nodes-IsCache : (size : ℕ) (k : K) (v : V) → IsCache t size (free_nodes size k v)
  free_nodes-IsCache size k v = record {
    active_once = tt;
    free_once = Unique-upto 0 size;
    apart = All-trivial _ (λ j. tt) (upto 0 size);
    held = λ k' i e. cc e;
    mapped = tt;
    all_nodes = omega (arith, length-upto 0 size);
    counted = refl;
  }

  -- A new cache of a size that is not 0 passes all its assertions, is well formed and has no entry; a size
  -- of 0 fails.
  pub new_cache-IsCache :
      (size : ℕ) (k : K) (v : V)
      → 0 < size
      → ((c : Cache K V) × (new_cache size k v ≡ ok c) × IsCache t size c × (entries t c ≡ []))
        × (new_cache 0 k v ≡ aborted)
  unfolding new_cache
  new_cache-IsCache size k v pos =
      let some_node : (size == 0) ≡ false = ground arith in
      (
        (
          free_nodes size k v,
          rw (some_node, length-upto 0 size, ==_self size) refl,
          free_nodes-IsCache size k v,
          refl,
        ),
        refl,
      )

  touched_entries :
      (size : ℕ) (c : Cache K V) (i : ℕ) (k : K) (v : V)
      → IsCache t size c
      → c.map k ≡ some i
      → entries t (update_lru (record c { nodes = set_node c.nodes i ((c.nodes i).0, v) }) i)
        ≡ (k, v) ∷ remove t k (entries t c)
  touched_entries size c i k v h e =
      let (on, at_key) = h.held k i e in
      let rest =
        entries_of-set_node t c.nodes i ((c.nodes i).0, v) (unlink i c.active)
          (Not-unlink i c.active) in
      rw (==_self i, rest, remove-entries_of t c.map c.nodes k i c.active e at_key h.mapped, at_key)

  -- The ways of an insertion.
  insert_hit :
      (c : Cache K V) (k : K) (v : V) (i : ℕ)
      → c.map k ≡ some i
      → insert t c k v
        ≡ some (
          update_lru (record c { nodes = set_node c.nodes i ((c.nodes i).0, v) }) i,
          some (c.nodes i).1,
        )
  unfolding insert
  insert_hit c k v i e = rw (insert, e)

  insert_free :
      (c : Cache K V) (k : K) (v : V) (i : ℕ) (free' : List ℕ)
      → c.map k ≡ none
      → c.free ≡ i ∷ free'
      → insert t c k v ≡ some (reuse t (record c { free = free' }) i k v, none)
  unfolding insert
  insert_free c k v i free' e f = rw (insert, e, f)

  insert_full :
      (c : Cache K V) (k : K) (v : V) (i : ℕ)
      → c.map k ≡ none
      → c.free ≡ []
      → last c.active ≡ some i
      → insert t c k v ≡ some (reuse t (evict t c i) i k v, some (c.nodes i).1)
  unfolding insert
  insert_full c k v i e f l =
      rw (insert, e, f, l)
        (ap (λ x. some (reuse t (record (evict t c i) { free = x }) i k v, some (c.nodes i).1)) f)

  put_miss :
      (size : ℕ) (c : Cache K V) (k : K) (v : V) (room : Bool)
      → IsCache t size c
      → c.map k ≡ none
      → ltb (length c.active) size ≡ room
      → put t size k v (entries t c) ≡ (
          if room
          then ((k, v) ∷ entries t c, none)
          else ((k, v) ∷ but_last t (entries t c), last_value t (entries t c)))
  unfolding put
  put_miss size c k v room h e r = rw (
    put,
    value_miss t c.map c.nodes k c.active e h.mapped,
    length-entries_of t c.nodes c.active,
    r,
  )

  reused_entries :
      (c : Cache K V) (i : ℕ) (k : K) (v : V)
      → Not i c.active
      → entries t (reuse t c i k v) ≡ (k, v) ∷ entries t c
  reused_entries c i k v out = rw (==_self i, entries_of-set_node t c.nodes i (k, v) c.active out)

  put_hit :
      (size : ℕ) (c : Cache K V) (k : K) (v : V) (i : ℕ)
      → IsCache t size c
      → c.map k ≡ some i
      → put t size k v (entries t c) ≡ ((k, v) ∷ remove t k (entries t c), some (c.nodes i).1)
  unfolding put
  put_hit size c k v i h e =
      let (on, at_key) = h.held k i e in
      rw (put, value_hit t c.map c.nodes k i c.active e at_key h.mapped on)

  -- On a well-formed cache with a node, `insert` puts the entry in front of the list of entries
  -- and drops the value that the key had, or, for a new key in a full cache, the last entry; it
  -- returns the dropped value and a well-formed cache.
  pub insert_lem :
      (size : ℕ) (c : Cache K V) (k : K) (v : V)
      → 0 < size
      → IsCache t size c
      → (c' : Cache K V) × (dropped : Option V) × (insert t c k v ≡ some (c', dropped))
        × IsCache t size c'
        × ((entries t c', dropped) ≡ put t size k v (entries t c))
  insert_lem size c k v pos h = elim (Option-cases (c.map k)) [
    | inr (i, e) ↦
        let (on, at_key) = h.held k i e in
        (
          _,
          some (c.nodes i).1,
          insert_hit c k v i e,
          rewritten-IsCache t size c i v h on,
          rw (put_hit size c k v i h e)
              (ap (λ es. (es, some (c.nodes i).1)) (touched_entries size c i k v h e)),
        )
    | inl e ↦ elim (List-cases c.free) [
      | inr (i, free', f) ↦
          let room : ltb (length c.active) size ≡ true = lt→ltb _ _ (has_room i free' f) in
          let d = freed-Detached t size c i free' k h f e in
          (
            _,
            none,
            insert_free c k v i free' e f,
            reused-IsCache t size (record c { free = free' }) i k v d,
            rw (put_miss size c k v true h e room) (
                ap (λ es. (es, none))
                  (reused_entries (record c { free = free' }) i k v d.not_active)),
          )
      | inl f ↦
          let (i, l) = has_last f in
          let d = evicted-Detached t size c i k h f (In-last i c.active l) e in
          let (cut, dropped) = entries_of-last t c.nodes i c.active h.active_once l in
          (
            _,
            some (c.nodes i).1,
            insert_full c k v i e f l,
            reused-IsCache t size (evict t c i) i k v d,
            rw (
              put_miss size c k v false h e (no_room f),
              reused_entries (evict t c i) i k v d.not_active,
              cut,
              dropped,
            ),
          )
    ]
  ]
    where
      List-cases : (xs : List ℕ) → (xs ≡ []) ⊎ ((x : ℕ) × (ys : List ℕ) × (xs ≡ x ∷ ys))
      List-cases [] = inl refl
      List-cases (x ∷ ys) = inr (x, ys, refl)

      has_room : (i : ℕ) (free' : List ℕ) → c.free ≡ i ∷ free' → length c.active < size
      has_room i free' f = let total = rw f at h.all_nodes in omega (arith, total)

      no_room : c.free ≡ [] → ltb (length c.active) size ≡ false
      no_room f = let total = rw f at h.all_nodes in ground (arith, total)

      some_last : (is : List ℕ) → 0 < length is → (i : ℕ) × (last is ≡ some i)
      some_last [] lt = absurd (omega arith)
      some_last (j ∷ is) lt = last-some j is

      has_last : c.free ≡ [] → (i : ℕ) × (last c.active ≡ some i)
      has_last f = let total = rw f at h.all_nodes in some_last c.active (omega (arith, total, pos))

  touch_hit :
      (size : ℕ) (c : Cache K V) (k : K) (i : ℕ)
      → IsCache t size c
      → c.map k ≡ some i
      → entries t (update_lru c i) ≡ touch t k (entries t c)
  unfolding touch
  touch_hit size c k i h e =
      let (on, at_key) = h.held k i e in
      rw
        (
          touch,
          value_hit t c.map c.nodes k i c.active e at_key h.mapped on,
          remove-entries_of t c.map c.nodes k i c.active e at_key h.mapped,
        )
        (ap (λ x. (x, (c.nodes i).1) ∷ entries_of t c.nodes (unlink i c.active)) at_key)

  touch_miss :
      (size : ℕ) (c : Cache K V) (k : K)
      → IsCache t size c
      → c.map k ≡ none
      → entries t c ≡ touch t k (entries t c)
  unfolding touch
  touch_miss size c k h e = rw (touch, value_miss t c.map c.nodes k c.active e h.mapped)

  -- On a well-formed cache `find` gives the value of the key, if there is one, and moves the entry
  -- to the front; the cache stays well formed.
  pub find_lem :
      (size : ℕ) (c : Cache K V) (k : K)
      → IsCache t size c
      → (c' : Cache K V) × (found : Option V) × (find t c k ≡ (c', found))
        × IsCache t size c'
        × (entries t c' ≡ touch t k (entries t c))
        × (found ≡ value_of t k (entries t c))
  unfolding find
  find_lem size c k h = elim (Option-cases (c.map k)) [
    | inl e ↦ (
      c,
      none,
      rw (find, e),
      h,
      touch_miss size c k h e,
      sym (value_miss t c.map c.nodes k c.active e h.mapped),
    )
    | inr (i, e) ↦
        let (on, at_key) = h.held k i e in
        (
          update_lru c i,
          some (c.nodes i).1,
          rw (find, e),
          touched-IsCache t size c i h on,
          touch_hit size c k i h e,
          sym (value_hit t c.map c.nodes k i c.active e at_key h.mapped on),
        )
  ]

  -- An insertion after `clear`.
  cleared_insert :
      (c : Cache K V) (k : K) (v : V) (i : ℕ)
      → c.free ≡ []
      → last c.active ≡ some i
      → insert t (clear c) k v ≡ some (reuse t (evict t (clear c) i) i k v, some (c.nodes i).1)
  unfolding clear
  cleared_insert c k v i f l = insert_full (clear c) k v i refl f l

  -- After `clear` every key misses and the size is 0, but the nodes stay in use, in their order. In a
  -- well-formed cache that is full, the next insertion therefore drops the value of the last entry from before
  -- and returns it, and the cache is no longer well formed.
  pub clear_lem :
      (size : ℕ) (c : Cache K V) (k : K) (v : V)
      → 0 < size
      → IsCache t size c
      → length c.active ≡ size
      → ((k' : K) → find t (clear c) k' ≡ (clear c, none))
        × ((clear c).count ≡ 0)
        × (entries t (clear c) ≡ entries t c)
        × ((c' : Cache K V) × (insert t (clear c) k v ≡ some (c', last_value t (entries t c))))
        × (IsCache t size (clear c) → ⊥)
  unfolding clear find
  clear_lem size c k v pos h full =
      let (i, l) = last_of c.active (omega (arith, full, pos)) in
      let (cut, dropped) = entries_of-last t c.nodes i c.active h.active_once l in
      (
        λ k'. refl,
        refl,
        refl,
        (
          reuse t (evict t (clear c) i) i k v,
          cleared_insert c k v i (none_free (omega (arith, h.all_nodes, full))) l
              ∙ ap (λ o. some (reuse t (evict t (clear c) i) i k v, o)) (sym dropped),
        ),
        λ h'. not_mapped c.active (omega (arith, full, pos)) h'.mapped,
      )
    where
      last_of : (is : List ℕ) → 0 < length is → (i : ℕ) × (last is ≡ some i)
      last_of [] lt = absurd (omega arith)
      last_of (j ∷ is) lt = last-some j is

      none_free : length c.free ≡ 0 → c.free ≡ []
      none_free = bare c.free
        where
          bare : (is : List ℕ) → length is ≡ 0 → is ≡ []
          bare [] e = refl
          bare (j ∷ is) e = absurd (omega arith)

      not_mapped : (is : List ℕ) → 0 < length is → All (Mapped t (λ k. none) c.nodes) is → ⊥
      not_mapped [] lt h' = absurd (omega arith)
      not_mapped (j ∷ is) lt h' = cc h'.0
