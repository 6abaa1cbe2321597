-- ===== src/Lru/Laws.antt =====
-- The steps of an insertion keep the invariant of the cache.
use nomad_mpt.Prelude.{
  ℕ, suc, ◌+◌, ◌≡◌, refl, sym, ap, ◌∙◌, arith, Bool-cases, inl, inr, none, some, List, [], ◌∷◌,
  length, All, In,
}
use nomad_mpt.Prelude.{◌==◌, ==→eq, ==_self}
use nomad_mpt.Lru.{KeyTest, Cache, unlink, set_node, set_entry, update_lru, reuse, evict}
use nomad_mpt.Lru.Lists.{
  Not, Unique, All-In, All-unlink, All-weaken, Not-unlink, Not-unlink_other, Unique-unlink,
  In-unlink, length-unlink,
}
use nomad_mpt.Lru.Entries.{Mapped, IsCache}

module _ {K V : Type 0} (t : KeyTest K) where
  -- Moving a node to the front, where the nodes may have other values under their keys.
  moved-IsCache :
      (size : ℕ) (c : Cache K V) (n : ℕ → K × V) (i : ℕ)
      → ((j : ℕ) → (n j).0 ≡ (c.nodes j).0)
      → IsCache t size c
      → In i c.active
      → IsCache t size (update_lru (record c { nodes = n }) i)
  moved-IsCache size c n i key_same h m = record {
    active_once = (Not-unlink i c.active, Unique-unlink i c.active h.active_once);
    free_once = h.free_once;
    apart =
        All-weaken (λ j. Not j c.active) _
          (λ j p. (All-In (λ x. x ≡ j → ⊥) c.active i p m, Not-unlink_other i j c.active p)) c.free
          h.apart;
    held = λ k j e. let (on, same) = h.held k j e in (In-unlink i j c.active on, key_same j ∙ same);
    mapped = (
      rw key_same (All-In (Mapped t c.map c.nodes) c.active i h.mapped m),
      All-weaken _ _ (λ j p. rw key_same p.0) (unlink i c.active)
          (All-unlink (Mapped t c.map c.nodes) i c.active h.mapped),
    );
    all_nodes = omega (arith, length-unlink i c.active h.active_once m, h.all_nodes);
    counted = h.counted ∙ sym (length-unlink i c.active h.active_once m);
  }

  pub touched-IsCache :
      (size : ℕ) (c : Cache K V) (i : ℕ)
      → IsCache t size c
      → In i c.active
      → IsCache t size (update_lru c i)
  touched-IsCache size c i h m = moved-IsCache size c c.nodes i (λ j. refl) h m

  pub rewritten-IsCache :
      (size : ℕ) (c : Cache K V) (i : ℕ) (v : V)
      → IsCache t size c
      → In i c.active
      → IsCache t size (update_lru (record c { nodes = set_node c.nodes i ((c.nodes i).0, v) }) i)
  rewritten-IsCache size c i v h m =
      moved-IsCache size c (set_node c.nodes i ((c.nodes i).0, v)) i key_same h m
    where
      key_same : (j : ℕ) → (set_node c.nodes i ((c.nodes i).0, v) j).0 ≡ (c.nodes j).0
      key_same j = elim (Bool-cases (j == i)) [ inl x ↦ rw x (rw (==→eq j i x)) | inr x ↦ rw x ]

  -- A cache with one node outside both lists, and no entry for a key.
  pub record Detached (size : ℕ) (c : Cache K V) (i : ℕ) (k : K) : Type 0 where
    active_once : Unique c.active
    pub not_active : Not i c.active
    free_once : Unique c.free
    not_free : Not i c.free
    apart : All (λ j. Not j c.active) c.free
    held : (k' : K) (j : ℕ) → c.map k' ≡ some j → In j c.active × ((c.nodes j).0 ≡ k')
    mapped : All (Mapped t c.map c.nodes) c.active
    no_entry : c.map k ≡ none
    one_short : suc (length c.active + length c.free) ≡ size
    counted : c.count ≡ length c.active

  pub reused-IsCache :
      (size : ℕ) (c : Cache K V) (i : ℕ) (k : K) (v : V)
      → Detached size c i k
      → IsCache t size (reuse t c i k v)
  reused-IsCache size c i k v h = record {
    active_once = (h.not_active, h.active_once);
    free_once = h.free_once;
    apart = both c.free h.not_free h.apart;
    held = new_held;
    mapped = (
      rw (==_self i, t.same_self k),
      All-weaken _ _ kept_entry c.active (with_not c.active h.mapped h.not_active),
    );
    all_nodes = omega (arith, h.one_short);
    counted = omega (arith, h.counted);
  }
    where
      both :
          (js : List ℕ)
          → Not i js
          → All (λ j. Not j c.active) js
          → All (λ j. Not j (i ∷ c.active)) js
      both [] a b = tt
      both (j ∷ js) a b = (((λ e. a.0 (sym e)), b.0), both js a.1 b.1)

      with_not :
          (js : List ℕ)
          → All (Mapped t c.map c.nodes) js
          → Not i js
          → All (λ j. Mapped t c.map c.nodes j × (j ≡ i → ⊥)) js
      with_not [] a b = tt
      with_not (j ∷ js) a b = ((a.0, b.0), with_not js a.1 b.1)

      kept_entry :
          (j : ℕ)
          → Mapped t c.map c.nodes j × (j ≡ i → ⊥)
          → Mapped t (set_entry t c.map k (some i)) (set_node c.nodes i (k, v)) j
      kept_entry j (m, ne) = elim (Bool-cases (j == i)) [
        | inl x ↦ absurd (ne (==→eq j i x))
        | inr x ↦ elim (Bool-cases (t.same (c.nodes j).0 k)) [
          | inl y ↦ let is_key = t.same→eq _ _ y in let gone = h.no_entry in cc (is_key, gone, m)
          | inr y ↦ rw (x, y) m
        ]
      ]

      new_held :
          (k' : K) (j : ℕ)
          → set_entry t c.map k (some i) k' ≡ some j
          → In j (i ∷ c.active) × ((set_node c.nodes i (k, v) j).0 ≡ k')
      new_held k' j e = elim (Bool-cases (t.same k' k)) [
        | inl y ↦
            let one : j ≡ i = cc (rw y at e) in
            (inl one, rw (one, ==_self i) (sym (t.same→eq k' k y)))
        | inr y ↦
            let (on, at_key) = h.held k' j (rw y at e) in
            elim (Bool-cases (j == i)) [
              | inl x ↦ absurd (All-In (λ m. m ≡ i → ⊥) c.active j h.not_active on (==→eq j i x))
              | inr x ↦ (inr on, rw x at_key)
            ]
      ]

  pub freed-Detached :
      (size : ℕ) (c : Cache K V) (i : ℕ) (free' : List ℕ) (k : K)
      → IsCache t size c
      → c.free ≡ i ∷ free'
      → c.map k ≡ none
      → Detached size (record c { free = free' }) i k
  freed-Detached size c i free' k h e none_yet = record {
    active_once = h.active_once;
    not_active = (rw e at h.apart).0;
    free_once = (rw e at h.free_once).1;
    not_free = (rw e at h.free_once).0;
    apart = (rw e at h.apart).1;
    held = h.held;
    mapped = h.mapped;
    no_entry = none_yet;
    one_short = let total = rw e at h.all_nodes in omega (arith, total);
    counted = h.counted;
  }

  pub evicted-Detached :
      (size : ℕ) (c : Cache K V) (i : ℕ) (k : K)
      → IsCache t size c
      → c.free ≡ []
      → In i c.active
      → c.map k ≡ none
      → Detached size (evict t c i) i k
  evicted-Detached size c i k h e on none_yet = record {
    active_once = Unique-unlink i c.active h.active_once;
    not_active = Not-unlink i c.active;
    free_once = h.free_once;
    not_free = rw e tt;
    apart = rw e tt;
    held = kept_held;
    mapped =
        All-weaken _ _ kept_entry (unlink i c.active)
          (All-unlink (Mapped t c.map c.nodes) i c.active h.mapped);
    no_entry = elim (Bool-cases (t.same k (c.nodes i).0)) [ inl y ↦ rw y | inr y ↦ rw y none_yet ];
    one_short = omega (arith, h.all_nodes, shorter);
    counted = rw at_i (omega (arith, h.counted, shorter));
  }
    where
      at_i : c.map (c.nodes i).0 ≡ some i
      at_i = All-In (Mapped t c.map c.nodes) c.active i h.mapped on

      shorter : suc (length (unlink i c.active)) ≡ length c.active
      shorter = length-unlink i c.active h.active_once on

      kept_entry :
          (j : ℕ)
          → Mapped t c.map c.nodes j × (j ≡ i → ⊥)
          → Mapped t (set_entry t c.map (c.nodes i).0 none) c.nodes j
      kept_entry j (m, ne) = elim (Bool-cases (t.same (c.nodes j).0 (c.nodes i).0)) [
        | inl y ↦
            let same_key = t.same→eq _ _ y in
            let here = at_i in let one : j ≡ i = cc (m, same_key, here) in absurd (ne one)
        | inr y ↦ rw y m
      ]

      kept_held :
          (k' : K) (j : ℕ)
          → set_entry t c.map (c.nodes i).0 none k' ≡ some j
          → In j (unlink i c.active) × ((c.nodes j).0 ≡ k')
      kept_held k' j e' = elim (Bool-cases (t.same k' (c.nodes i).0)) [
        | inl y ↦ cc (rw y at e')
        | inr y ↦
            let (was_on, at_key) = h.held k' j (rw y at e') in
            elim (In-unlink i j c.active was_on) [
              | inl p ↦
                  let s = t.same_self k' in
                  let same_node : c.nodes j ≡ c.nodes i = ap c.nodes p in
                  cc (y, s, at_key, same_node)
              | inr m ↦ (m, at_key)
            ]
      ]
