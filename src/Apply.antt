-- ===== src/Apply.antt =====
-- What a list of updates means: the change that it makes to a map from keys to values. The keys of
-- one list have one length, so that at most one of them is a prefix of a given key; what follows
-- the prefix is the business of that update and of the list nested in it.
pub mod Split
pub mod Sublist
pub mod Masks
pub mod Contract
use nomad_mpt.Prelude.{
  ℕ, ◌+◌, ◌<◌, ◌≡◌, Bool, true, false, if◌then◌else◌, or_else, Option, none, some,
}
use nomad_mpt.Prelude.{List, [], ◌∷◌, ◌++◌, drop, length, All}
use nomad_mpt.Update.{Update, update, UpdateList, nil, cons, key, is_deletion}
use nomad_mpt.Lookup.{strip}
use nomad_mpt.Nibbles.Bytes.{IsNibble}

abbrev pub Map : Type 0
Map = List ℕ → Option (List ℕ)

abbrev pub no_keys : Map
no_keys k = none

-- By what follows a prefix, if it is one.
unfoldable pub rest_or : Option (List ℕ) → Map → Option (List ℕ) → Option (List ℕ)
rest_or none f other = other
rest_or (some r) f other = f r

-- `apply_in us p m old k` is the value of `k` after the updates `us`, whose keys count from nibble `p` on:
-- `m` is the map before and `old` its value at `k`.
unfoldable mutual
  pub apply_in : UpdateList → ℕ → Map → Option (List ℕ) → Map
  apply_in nil p m old k = old
  apply_in (cons u us) p m old k =
      rest_or (strip (drop p (key u)) k) (apply_one u (λ r'. m (drop p (key u) ++ r')))
        (apply_in us p m old k)

  -- The map below the key of one update: a deletion clears it, an incarnation starts from nothing,
  -- the value is set if there is one, and the nested list is applied.
  pub apply_one : Update → Map → Map
  apply_one (update k v inc l ver) m r =
      let base : Map = if inc then no_keys else m in
      let kept : Option (List ℕ) = elim r [
        | [] ↦ or_else v (base [])
        | b ∷ r' ↦ apply_in l 0 base (base (b ∷ r')) (b ∷ r')
      ] in
      if is_deletion (update k v inc l ver) then none else kept

abbrev pub apply : UpdateList → Map → Map
apply us m k = apply_in us 0 m (m k) k

abbrev pub AllUpdates : (Update → Type 0) → UpdateList → Type 0
AllUpdates P nil = Unit
AllUpdates P (cons u us) = P u × AllUpdates P us

-- From nibble `p` on no key of the list is `k`, and no two keys are equal.
abbrev pub Fresh : ℕ → List ℕ → UpdateList → Type 0
Fresh p k us = AllUpdates (λ w. drop p (key w) ≡ k → ⊥) us

abbrev pub Distinct : ℕ → UpdateList → Type 0
Distinct p nil = Unit
Distinct p (cons u us) = Fresh p (drop p (key u)) us × Distinct p us

-- The updates that a fixed-length table takes: keys of one positive length, pairwise different, and
-- nested lists of the same kind.
abbrev mutual
  pub IsTable : ℕ → UpdateList → Type 0
  IsTable n nil = Unit
  IsTable n (cons u us) = IsEntry n u × Fresh 0 (key u) us × IsTable n us

  pub IsEntry : ℕ → Update → Type 0
  IsEntry n (update k v inc l ver) =
      (length k ≡ n) × (0 < n) × All IsNibble k × ((m : ℕ) × IsTable m l)

pub IsTable-AllUpdates : (n : ℕ) (us : UpdateList) → IsTable n us → AllUpdates (IsEntry n) us
IsTable-AllUpdates n nil h = tt
IsTable-AllUpdates n (cons u us) h = (h.0, IsTable-AllUpdates n us h.2)

pub IsTable-Distinct : (n : ℕ) (us : UpdateList) → IsTable n us → Distinct 0 us
IsTable-Distinct n nil h = tt
IsTable-Distinct n (cons u us) h = (h.1, IsTable-Distinct n us h.2)

module _ (u : Update) (us : UpdateList) (p : ℕ) (m : Map) (old : Option (List ℕ)) (k : List ℕ) where
  pub apply_in-none :
      strip (drop p (key u)) k ≡ none → apply_in (cons u us) p m old k ≡ apply_in us p m old k
  unfolding apply_in rest_or
  apply_in-none e = rw e

  pub apply_in-some :
      (r : List ℕ)
      → strip (drop p (key u)) k ≡ some r
      → apply_in (cons u us) p m old k ≡ apply_one u (λ r'. m (drop p (key u) ++ r')) r
  unfolding apply_in rest_or
  apply_in-some r e = rw (e)
