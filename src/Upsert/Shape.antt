-- ===== src/Upsert/Shape.antt =====
-- The shape of a database of fixed-length tables: the key length of each level of nesting. An old
-- trie and a list of updates that have one shape can be put together.
use nomad_mpt.Prelude.{
  ℕ, ◌+◌, ◌<◌, ◌≤◌, ◌≡◌, refl, sym, ◌∙◌, subst, arith, Bool-cases, inl, inr, none, some,
}
use nomad_mpt.Prelude.{◌==◌, List, [], ◌∷◌, length}
use nomad_mpt.Update.{Update, update, UpdateList, nil, cons, next}
use nomad_mpt.Node
use nomad_mpt.Node.{Node, node, Children, no_child, child, path, children, next_at}
use nomad_mpt.Apply.{AllUpdates, IsEntry, IsTable}
use nomad_mpt.Apply.Split.{split, split-AllUpdates, At}
use nomad_mpt.Upsert.Tables.{AllUpdates-map, IsTable-Table}
use nomad_mpt.Upsert.Grow.{
  IsInsert, Growing, sublist-Growing, start-Growing, insert_next, AreInserts, fuel_for,
  more-Growing,
}

module _ (v : ℕ) where
  -- Keys of length `n` that a path index of 8 bits reaches, versions from `v` on, and nested lists
  -- with the lengths `ls`.
  abbrev mutual
    pub AllSuit : List ℕ → UpdateList → Type 0
    AllSuit ls nil = Unit
    AllSuit [] (cons u us) = ⊥
    AllSuit (n ∷ ls) (cons u us) = Suits n ls u × AllSuit (n ∷ ls) us

    pub Suits : ℕ → List ℕ → Update → Type 0
    Suits n ls (update k x inc l ver) = (length k ≡ n) × (n < 255) × (v ≤ ver) × AllSuit ls l

  -- A node below `d` nibbles of keys of length `n`: a value at length `n` only, with a trie of the
  -- next level below it, and no version above `v`.
  abbrev mutual
    pub Stands : ℕ → List ℕ → ℕ → Node → Type 0
    Stands n ls d (node p none ver cs) =
        (ver ≤ v) × (d + length p < n) × Below n ls (d + length p + 1) cs
    Stands n [] d (node p (some x) ver no_child) = (ver ≤ v) × (d + length p ≡ n)
    Stands n [] d (node p (some x) ver (child b c cs)) = ⊥
    Stands n (m ∷ ls) d (node p (some x) ver cs) = (ver ≤ v) × (d + length p ≡ n) × Below m ls 1 cs

    pub Below : ℕ → List ℕ → ℕ → Children → Type 0
    Below n ls d no_child = Unit
    Below n ls d (child b c cs) = Stands n ls d c × Below n ls d cs

  pub Suits-small : (n : ℕ) (ls : List ℕ) (u : Update) → Suits n ls u → n < 255
  Suits-small n ls (update k x inc l ver) h = h.1

  pub child-Stands :
      (n d b : ℕ) (ls : List ℕ) (cs : Children) (c : Node)
      → Below n ls d cs
      → next_at b cs ≡ some c
      → Stands n ls d c
  unfolding next_at
  child-Stands n d b ls no_child c h e = cc
  child-Stands n d b ls (child x n' cs) c h e = elim (Bool-cases (x == b)) [
    | inl t ↦ subst (Stands n ls d) (cc (rw t at e)) h.0
    | inr f ↦ child-Stands n d b ls cs c h.1 (rw f at e)
  ]

  pub Stands-version :
      (n d : ℕ) (ls : List ℕ) (old : Node) → Stands n ls d old → Node.version old ≤ v
  Stands-version n d ls (node p none ver cs) h = h.0
  Stands-version n d [] (node p (some x) ver no_child) h = h.0
  Stands-version n d [] (node p (some x) ver (child b c cs)) h = absurd h
  Stands-version n d (m ∷ ls) (node p (some x) ver cs) h = h.0

  pub Stands-fits :
      (n d : ℕ) (ls : List ℕ) (old : Node) → Stands n ls d old → d + length (path old) ≤ n
  Stands-fits n d ls (node p none ver cs) h = omega (arith, h.1)
  Stands-fits n d [] (node p (some x) ver no_child) h = omega (arith, h.1)
  Stands-fits n d [] (node p (some x) ver (child b c cs)) h = absurd h
  Stands-fits n d (m ∷ ls) (node p (some x) ver cs) h = omega (arith, h.1)

  -- Where keys end there is a value, and where they do not there is a branch.
  pub Stands-end :
      (n d : ℕ) (ls : List ℕ) (old : Node)
      → Stands n ls d old
      → n ≤ d + length (path old)
      → (x : List ℕ) × (Node.value old ≡ some x)
  Stands-end n d ls (node p none ver cs) h le = absurd (omega (arith, h.1))
  Stands-end n d [] (node p (some x) ver no_child) h le = (x, refl)
  Stands-end n d [] (node p (some x) ver (child b c cs)) h le = absurd h
  Stands-end n d (m ∷ ls) (node p (some x) ver cs) h le = (x, refl)

  pub Stands-inner :
      (n d : ℕ) (ls : List ℕ) (old : Node)
      → Stands n ls d old
      → d + length (path old) < n
      → Below n ls (d + length (path old) + 1) (children old)
  Stands-inner n d ls (node p none ver cs) h lt = h.2
  Stands-inner n d [] (node p (some x) ver no_child) h lt = absurd (omega (arith, h.1))
  Stands-inner n d [] (node p (some x) ver (child b c cs)) h lt = absurd h
  Stands-inner n d (m ∷ ls) (node p (some x) ver cs) h lt = absurd (omega (arith, h.1))

  -- The updates at one place of the recursion, on fuel `f`.
  pub record Stage (f p n : ℕ) (ls : List ℕ) (us : UpdateList) : Type 0 where
    pub growing : Growing f p n us
    pub suited : AllUpdates (Suits n ls) us

  pub sublist-Stage :
      (f g p n b : ℕ) (ls : List ℕ) (us : UpdateList)
      → Stage f p n ls us
      → p < n
      → f ≤ g + 3
      → Stage g (p + 1) n ls ((split us p).0.sublists b)
  sublist-Stage f g p n b ls us h lt le = record {
    growing = sublist-Growing f g p n b us h.growing lt le;
    suited =
        AllUpdates-map (At (Suits n ls) p b) (Suits n ls) (λ u z. z.0) _
          (split-AllUpdates (Suits n ls) us p b h.suited);
  }

  pub more-Stage :
      (f g p n : ℕ) (ls : List ℕ) (us : UpdateList) → Stage f p n ls us → f ≤ g → Stage g p n ls us
  more-Stage f g p n ls us h le = record {
    growing = more-Growing f g p n us h.growing le;
    suited = h.suited;
  }

  AllSuit-AllUpdates :
      (m : ℕ) (ls : List ℕ) (us : UpdateList) → AllSuit (m ∷ ls) us → AllUpdates (Suits m ls) us
  AllSuit-AllUpdates m ls nil h = tt
  AllSuit-AllUpdates m ls (cons u us) h = (h.0, AllSuit-AllUpdates m ls us h.1)

  suited-IsTable :
      (m n : ℕ) (ls : List ℕ) (us : UpdateList) → IsTable n us → AllSuit (m ∷ ls) us → IsTable m us
  suited-IsTable m n ls nil t h = tt
  suited-IsTable m n ls (cons (update k x inc l ver) us) t h =
      subst (λ i. IsTable i (cons (update k x inc l ver) us)) (sym t.0.0 ∙ h.0.0) t

  pub start-Stage :
      (f m n : ℕ) (ls : List ℕ) (us : UpdateList)
      → IsTable n us
      → AllSuit (m ∷ ls) us
      → AreInserts us
      → fuel_for us ≤ f
      → Stage f 0 m ls us
  start-Stage f m n ls us t h i le = record {
    growing = start-Growing f m us (IsTable-Table m us (suited-IsTable m n ls us t h)) i le;
    suited = AllSuit-AllUpdates m ls us h;
  }

  -- The list nested in an update goes with the trie below the node where the update's key ends.
  pub nested-Stage :
      (f n d : ℕ) (ls : List ℕ) (old : Node) (u : Update)
      → Stands n ls d old
      → n ≤ d + length (path old)
      → Suits n ls u
      → IsEntry n u
      → IsInsert u
      → fuel_for (next u) ≤ f
      → (m : ℕ) × (ls' : List ℕ) × Stage f 0 m ls' (next u) × Below m ls' 1 (children old)
  nested-Stage f n d ls (node q none ver cs) u h le s e i c = absurd (omega (arith, h.1))
  nested-Stage f n d [] (node q (some x) ver (child b y cs)) u h le s e i c = absurd h
  nested-Stage f n d [] (node q (some x) ver no_child) (update k y inc (cons w l) ver') h le s e i
        c =
      absurd s.3
  nested-Stage f n d [] (node q (some x) ver no_child) (update k y inc nil ver') h le s e i c = (
    0,
    [],
    record {
      growing = record {
        table = record { entries = tt; distinct = tt };
        inserts = tt;
        covered = tt;
      };
      suited = tt;
    },
    tt,
  )
  nested-Stage f n d (m ∷ ls) (node q (some x) ver cs) (update k y inc l ver') h le s e i c =
      (m, ls, start-Stage f m e.3.0 ls l e.3.1 s.3 (insert_next (update k y inc l ver') i) c, h.2)
