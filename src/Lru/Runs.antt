-- ===== src/Lru/Runs.antt =====
-- Runs of the cache on small inputs, and its theorems at those inputs.
use nomad_mpt.Prelude.{
  ℕ, ◌==◌, ==→eq, ==_self, ◌≡◌, refl, arith, Option, none, some, [], ◌∷◌, if◌then◌else◌, Bool-cases,
  inl, inr, sym, In,
}
use nomad_mpt.Result.{ok, aborted}
use nomad_mpt.Lru.{KeyTest, Cache, new_cache, free_nodes, insert, find, clear}
use nomad_mpt.Lru.Spec.{last_value, put, touch, value_of}
use nomad_mpt.Lru.Entries.{IsCache, entries}
use nomad_mpt.Lru.Contract.{new_cache-IsCache, insert_lem, find_lem, clear_lem}

abbrev numbers : KeyTest ℕ
numbers = record { same = ◌==◌; same→eq = ==→eq; same_self = ==_self }

-- Two nodes.
abbrev fresh : Cache ℕ ℕ
fresh = free_nodes 2 0 0

new_cache-IsCache_example :
    ((c : Cache ℕ ℕ) × (new_cache 2 0 0 ≡ ok c) × IsCache numbers 2 c × (entries numbers c ≡ []))
    × (new_cache {K = ℕ} {V = ℕ} 0 0 0 ≡ aborted)
new_cache-IsCache_example = new_cache-IsCache numbers 2 0 0 (omega arith)

-- One node, in use for the key 1.
abbrev full : Cache ℕ ℕ
full = record {
  nodes = λ i. (1, 10);
  active = 0 ∷ [];
  free = [];
  map = λ k. if k == 1 then some 0 else none;
  count = 1;
}

held_key : (k i : ℕ) → full.map k ≡ some i → In i full.active × ((full.nodes i).0 ≡ k)
held_key k i e = elim (Bool-cases (k == 1)) [
  | inl f ↦ let node : 0 ≡ i = cc (rw f at e) in (inl (sym node), sym (==→eq _ _ f))
  | inr f ↦ cc (rw f at e)
]

full-IsCache : IsCache numbers 1 full
full-IsCache = record {
  active_once = (tt, tt);
  free_once = tt;
  apart = tt;
  held = held_key;
  mapped = (refl, tt);
  all_nodes = omega arith;
  counted = refl;
}

insert_lem_example :
    (c' : Cache ℕ ℕ) × (dropped : Option ℕ) × (insert numbers full 2 20 ≡ some (c', dropped))
    × IsCache numbers 1 c'
    × ((entries numbers c', dropped) ≡ put numbers 1 2 20 (entries numbers full))
insert_lem_example = insert_lem numbers 1 full 2 20 (omega arith) full-IsCache

find_lem_example :
    (c' : Cache ℕ ℕ) × (found : Option ℕ) × (find numbers full 1 ≡ (c', found))
    × IsCache numbers 1 c'
    × (entries numbers c' ≡ touch numbers 1 (entries numbers full))
    × (found ≡ value_of numbers 1 (entries numbers full))
find_lem_example = find_lem numbers 1 full 1 full-IsCache

clear_lem_example :
    ((k' : ℕ) → find numbers (clear full) k' ≡ (clear full, none))
    × ((clear full).count ≡ 0)
    × (entries numbers (clear full) ≡ entries numbers full)
    × ((c' : Cache ℕ ℕ) × (insert numbers (clear full) 2 20
          ≡ some (c', last_value numbers (entries numbers full))))
    × (IsCache numbers 1 (clear full) → ⊥)
clear_lem_example = clear_lem numbers 1 full 2 20 (omega arith) full-IsCache refl

abbrev after :
    Option (Cache ℕ ℕ × Option ℕ)
    → (Cache ℕ ℕ → Option (Cache ℕ ℕ × Option ℕ))
    → Option (Cache ℕ ℕ × Option ℕ)
after none f = none
after (some (c, dropped)) f = f c

abbrev looked_up : Option (Cache ℕ ℕ × Option ℕ) → ℕ → Option ℕ
looked_up none k = none
looked_up (some (c, dropped)) k = (find numbers c k).1

-- The keys 1 and 2 are put in, then the cache is cleared.
abbrev cleared : Cache ℕ ℕ → Option (Cache ℕ ℕ × Option ℕ)
cleared c = some (clear c, none)

abbrev refilled : Option (Cache ℕ ℕ × Option ℕ)
refilled =
    after
      (after (after (after (insert numbers fresh 1 10) (λ c. insert numbers c 2 20)) cleared)
        (λ c. insert numbers c 2 21))
      (λ c. insert numbers c 5 50)

-- Of the two keys put in since the cache of two nodes was cleared the first is lost: the node that
-- the second one reuses still had its key from before.
refilled_loses_key : looked_up refilled 2 ≡ none
unfolding insert find clear
refilled_loses_key = refl

-- Without `clear` the most recent two keys are there.
filled_keeps_key :
    looked_up
      (after
        (after (insert numbers fresh 1 10) (λ c. insert numbers c 2 20))
        (λ c. insert numbers c 5 50))
      2
    ≡ some 20
unfolding insert find
filled_keeps_key = refl
