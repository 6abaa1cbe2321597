-- ===== src/Lru.antt =====
-- depend/monad/category/core/lru/static_lru_cache.hpp: the cache of a fixed size. A node of `array_`
-- is an index; the two intrusive lists are lists of indices, in which a node is linked at most once.
pub mod Lists
pub mod Spec
pub mod Entries
pub mod Laws
pub mod Contract
pub mod Runs
use nomad_mpt.Prelude.{
  ℕ, zero, suc, ◌+◌, ◌-◌, ◌==◌, ◌≡◌, if◌then◌else◌, Bool, true, Option, none, some, List, [], ◌∷◌,
  length, not,
}
use nomad_mpt.Result.{Result, ok, check, ◌>>◌}
use nomad_mpt.Upsert.Base.{is_none}

-- The hash and the comparison of keys, as far as the cache relies on them.
pub record KeyTest (K : Type 0) : Type 0 where
  pub same : K → K → Bool
  pub same→eq : (a b : K) → same a b ≡ true → a ≡ b
  pub same_self : (a : K) → same a a ≡ true

-- `map_` is the function of its entries, with their number.
pub record Cache (K V : Type 0) : Type 0 where
  pub nodes : ℕ → K × V
  pub active : List ℕ
  pub free : List ℕ
  pub map : K → Option ℕ
  pub count : ℕ

abbrev pub upto : ℕ → ℕ → List ℕ
upto i zero = []
upto i (suc n) = i ∷ upto (i + 1) n

-- A node leaves a list.
abbrev pub unlink : ℕ → List ℕ → List ℕ
unlink i [] = []
unlink i (j ∷ js) = let rest = unlink i js in if j == i then rest else j ∷ rest

-- `std::prev(active_list_.end())`
abbrev pub last : List ℕ → Option ℕ
last [] = none
last (i ∷ []) = some i
last (i ∷ (j ∷ js)) = last (j ∷ js)

module _ {K V : Type 0} where
  abbrev pub set_node : (ℕ → K × V) → ℕ → K × V → ℕ → K × V
  set_node nodes i e j = if j == i then e else nodes j

  -- Every node of a new cache is free.
  abbrev pub free_nodes : ℕ → K → V → Cache K V
  free_nodes size k v = record {
    nodes = λ i. (k, v);
    active = [];
    free = upto 0 size;
    map = λ k'. none;
    count = 0;
  }

  -- The constructor with its assertions.
  unfoldable pub new_cache : ℕ → K → V → Result (Cache K V)
  new_cache size k v =
      let c = free_nodes size k v in
      check (not (size == 0))
      >> (check (length c.free == size) >> (check (length c.active == 0) >> ok c))

  -- `update_lru`
  abbrev pub update_lru : Cache K V → ℕ → Cache K V
  update_lru c i = record c { active = i ∷ unlink i c.active }

  -- `clear` empties the map only.
  unfoldable pub clear : Cache K V → Cache K V
  clear c = record c { map = λ k. none; count = 0 }

abbrev pub set_entry : {K : Type 0} → KeyTest K → (K → Option ℕ) → K → Option ℕ → K → Option ℕ
set_entry key_test map k o k' = if key_test.same k' k then o else map k'

module _ {K V : Type 0} (key_test : KeyTest K) where
  -- A node that is in no list takes the new entry and goes to the front.
  abbrev pub reuse : Cache K V → ℕ → K → V → Cache K V
  reuse c i k v = record c {
    nodes = set_node c.nodes i (k, v);
    active = i ∷ c.active;
    map = set_entry key_test c.map k (some i);
    count = c.count + 1;
  }

  -- The last node of `active_list_` leaves it and the map.
  abbrev pub evict : Cache K V → ℕ → Cache K V
  evict c i = record c {
    active = unlink i c.active;
    map = set_entry key_test c.map (c.nodes i).0 none;
    count = if is_none (c.map (c.nodes i).0) then c.count else c.count - 1;
  }

  -- The cache and the erased value; `none` where there is no node at all.
  unfoldable pub insert : Cache K V → K → V → Option (Cache K V × Option V)
  insert c k v = elim (c.map k) [
    | some i ↦ some (
      update_lru (record c { nodes = set_node c.nodes i ((c.nodes i).0, v) }) i,
      some (c.nodes i).1,
    )
    | none ↦ elim c.free [
      | i ∷ free' ↦ some (reuse (record c { free = free' }) i k v, none)
      | [] ↦ elim (last c.active) [
        | none ↦ none
        | some i ↦ some (reuse (evict c i) i k v, some (c.nodes i).1)
      ]
    ]
  ]

  -- The accessor's value, if there is one.
  unfoldable pub find : Cache K V → K → Cache K V × Option V
  find c k = elim (c.map k) [ none ↦ (c, none) | some i ↦ (update_lru c i, some (c.nodes i).1) ]
