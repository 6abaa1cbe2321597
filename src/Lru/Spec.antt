-- ===== src/Lru/Spec.antt =====
-- What the cache promises: a list of entries, the one used last in front, cut at its size.
use nomad_mpt.Prelude.{ℕ, ltb, if◌then◌else◌, Option, none, some, List, [], ◌∷◌, length}
use nomad_mpt.Lru.{KeyTest}

module _ {K V : Type 0} (key_test : KeyTest K) where
  abbrev pub value_of : K → List (K × V) → Option V
  value_of k [] = none
  value_of k (e ∷ es) = let rest = value_of k es in if key_test.same e.0 k then some e.1 else rest

  abbrev pub remove : K → List (K × V) → List (K × V)
  remove k [] = []
  remove k (e ∷ es) = let rest = remove k es in if key_test.same e.0 k then rest else e ∷ rest

  abbrev pub but_last : List (K × V) → List (K × V)
  but_last [] = []
  but_last (e ∷ []) = []
  but_last (e ∷ (e' ∷ es)) = e ∷ but_last (e' ∷ es)

  abbrev pub last_value : List (K × V) → Option V
  last_value [] = none
  last_value (e ∷ []) = some e.1
  last_value (e ∷ (e' ∷ es)) = last_value (e' ∷ es)

  -- The entries after an insertion and the value that it drops.
  unfoldable pub put : ℕ → K → V → List (K × V) → List (K × V) × Option V
  put size k v es = elim (value_of k es) [
    | some w ↦ ((k, v) ∷ remove k es, some w)
    | none ↦
        if ltb (length es) size then ((k, v) ∷ es, none) else ((k, v) ∷ but_last es, last_value es)
  ]

  -- The entries after a search: the one found goes to the front.
  unfoldable pub touch : K → List (K × V) → List (K × V)
  touch k es = elim (value_of k es) [ none ↦ es | some v ↦ (k, v) ∷ remove k es ]
