-- ===== src/Lru/Entries.antt =====
-- The list of entries that a cache stands for, and the invariant.
use nomad_mpt.Prelude.{
  ℕ, suc, ◌+◌, ◌≡◌, refl, sym, ap, true, Bool-cases, inl, inr, Option, none, some, List, [], ◌∷◌,
  length, All, In,
}
use nomad_mpt.Prelude.{◌==◌, ==→eq, ==_ne, ==_self}
use nomad_mpt.Lru.{KeyTest, Cache, unlink, last, set_node}
use nomad_mpt.Lru.Lists.{Not, Unique, All-In, In-last}
use nomad_mpt.Lru.Spec.{value_of, remove, but_last, last_value}

module _ {K V : Type 0} (t : KeyTest K) where
  -- The list of entries that the cache stands for.
  abbrev pub entries_of : (ℕ → K × V) → List ℕ → List (K × V)
  entries_of n [] = []
  entries_of n (i ∷ is) = n i ∷ entries_of n is

  abbrev pub entries : Cache K V → List (K × V)
  entries c = entries_of c.nodes c.active

  abbrev pub Mapped : (K → Option ℕ) → (ℕ → K × V) → ℕ → Type 0
  Mapped map n i = map (n i).0 ≡ some i

  -- Each node is in one list, and the map has exactly the active nodes, each under its key.
  pub record IsCache (size : ℕ) (c : Cache K V) : Type 0 where
    pub active_once : Unique c.active
    pub free_once : Unique c.free
    pub apart : All (λ j. Not j c.active) c.free
    pub held : (k : K) (i : ℕ) → c.map k ≡ some i → In i c.active × ((c.nodes i).0 ≡ k)
    pub mapped : All (Mapped c.map c.nodes) c.active
    pub all_nodes : length c.active + length c.free ≡ size
    pub counted : c.count ≡ length c.active

  pub length-entries_of : (n : ℕ → K × V) (is : List ℕ) → length (entries_of n is) ≡ length is
  length-entries_of n [] = refl
  length-entries_of n (i ∷ is) = ap suc (length-entries_of n is)

  module _ (map : K → Option ℕ) (n : ℕ → K × V) (k : K) where
    pub value_hit :
        (i : ℕ) (is : List ℕ)
        → map k ≡ some i
        → (n i).0 ≡ k
        → All (Mapped map n) is
        → In i is
        → value_of t k (entries_of n is) ≡ some (n i).1
    value_hit i [] e q h m = absurd m
    value_hit i (j ∷ is) e q h m = elim (Bool-cases (t.same (n j).0 k)) [
      | inl y ↦
          let is_key = t.same→eq _ _ y in
          let one : j ≡ i = cc (h.0, is_key, e) in rw y (ap (λ x. some (n x).1) one)
      | inr y ↦ rw y (elim m as (λ _. value_of t k (entries_of n is) ≡ some (n i).1) [
        | inl p ↦
            absurd (
              let s = t.same_self k in
              let same_node : n i ≡ n j = ap n p in cc (y, s, q, same_node))
        | inr m' ↦ value_hit i is e q h.1 m'
      ])
    ]

    pub value_miss :
        (is : List ℕ) → map k ≡ none → All (Mapped map n) is → value_of t k (entries_of n is) ≡ none
    value_miss [] e h = refl
    value_miss (j ∷ is) e h = elim (Bool-cases (t.same (n j).0 k)) [
      | inl y ↦ let is_key = t.same→eq _ _ y in cc (h.0, is_key, e)
      | inr y ↦ rw y (value_miss is e h.1)
    ]

    pub remove-entries_of :
        (i : ℕ) (is : List ℕ)
        → map k ≡ some i
        → (n i).0 ≡ k
        → All (Mapped map n) is
        → remove t k (entries_of n is) ≡ entries_of n (unlink i is)
    remove-entries_of i [] e q h = refl
    remove-entries_of i (j ∷ is) e q h = elim (Bool-cases (j == i)) [
      | inl x ↦
          let same_node : n j ≡ n i = ap n (==→eq j i x) in
          let s = t.same_self k in
          let y : t.same (n j).0 k ≡ true = cc (s, q, same_node) in
          rw (x, y) (remove-entries_of i is e q h.1)
      | inr x ↦ elim (Bool-cases (t.same (n j).0 k)) [
        | inl y ↦
            let is_key = t.same→eq _ _ y in
            let one : j ≡ i = cc (h.0, is_key, e) in absurd (==_ne j i x one)
        | inr y ↦ rw (x, y) (ap (◌∷◌ (n j)) (remove-entries_of i is e q h.1))
      ]
    ]

  -- Writing a node that is not among those of a list.
  pub entries_of-set_node :
      (n : ℕ → K × V) (i : ℕ) (e : K × V) (is : List ℕ)
      → Not i is
      → entries_of (set_node n i e) is ≡ entries_of n is
  entries_of-set_node n i e [] h = refl
  entries_of-set_node n i e (j ∷ is) h = elim (Bool-cases (j == i)) [
    | inl x ↦ absurd (h.0 (==→eq j i x))
    | inr x ↦ rw x (ap (◌∷◌ (n j)) (entries_of-set_node n i e is h.1))
  ]

  pub entries_of-last :
      (n : ℕ → K × V) (i : ℕ) (is : List ℕ)
      → Unique is
      → last is ≡ some i
      → (entries_of n (unlink i is) ≡ but_last t (entries_of n is))
        × (last_value t (entries_of n is) ≡ some (n i).1)
  entries_of-last n i [] u e = cc e
  entries_of-last n i (j ∷ []) u e =
      let one : j ≡ i = cc e in (rw (one, ==_self i), ap (λ x. some (n x).1) one)
  entries_of-last n i (j ∷ (x ∷ is)) u e = elim (Bool-cases (j == i)) [
    | inl y ↦
        absurd (All-In (λ m. m ≡ j → ⊥) (x ∷ is) i u.0 (In-last i (x ∷ is) e) (sym (==→eq j i y)))
    | inr y ↦ let (ih, v) = entries_of-last n i (x ∷ is) u.1 e in (rw y (ap (◌∷◌ (n j)) ih), v)
  ]
