-- ===== src/Upsert/Grow.antt =====
-- A list of insertions, and the fuel that building a trie from it takes.
use nomad_mpt.Prelude.{
  ℕ, suc, ◌+◌, ◌-◌, ◌*◌, ◌<◌, ◌≤◌, ◌≡◌, refl, ◌∙◌, arith, true, false, none, some,
}
use nomad_mpt.Prelude.{==_self, length, get_or}
use nomad_mpt.Update.{
  Update, update, UpdateList, nil, cons, key, next, value, size, is_empty, Requests, place, reset,
}
use nomad_mpt.Apply.{AllUpdates}
use nomad_mpt.Apply.Split.{split, place_all, place-sublists, split-AllUpdates, At}
use nomad_mpt.Apply.Masks.{split-IsSplit, place_all_nonempty}
use nomad_mpt.Apply.Sublist.{HasLength}
use nomad_mpt.Upsert.Tables.{Table, Table-lengths, AllUpdates-map, AllUpdates-both, sublist-Table}

-- Updates that set a value, and only such updates in the nested lists.
abbrev mutual
  pub AreInserts : UpdateList → Type 0
  AreInserts nil = Unit
  AreInserts (cons u us) = IsInsert u × AreInserts us

  pub IsInsert : Update → Type 0
  IsInsert (update k none inc l ver) = ⊥
  IsInsert (update k (some v) inc l ver) = AreInserts l

-- Three units for each nibble, and a few for each level of nesting.
abbrev mutual
  pub fuel_for : UpdateList → ℕ
  fuel_for nil = 1
  fuel_for (cons u us) = fuel_for_one u + fuel_for us

  pub fuel_for_one : Update → ℕ
  fuel_for_one (update k v inc l ver) = 3 * length k + 4 + fuel_for l

-- Fuel `f` is enough for the nibbles of one key from `p` on and for what is nested in it.
abbrev pub Covers : ℕ → ℕ → Update → Type 0
Covers f p u = 3 * (length (key u) - p) + 4 + fuel_for (next u) ≤ f

AreInserts-AllUpdates : (us : UpdateList) → AreInserts us → AllUpdates IsInsert us
AreInserts-AllUpdates nil h = tt
AreInserts-AllUpdates (cons u us) h = (h.0, AreInserts-AllUpdates us h.1)

fuel_for-Covers : (us : UpdateList) (f : ℕ) → fuel_for us ≤ f → AllUpdates (Covers f 0) us
fuel_for-Covers nil f h = tt
fuel_for-Covers (cons (update k v inc l ver) us) f h =
    (omega arith, fuel_for-Covers us f (omega arith))

pub insert_value : (u : Update) → IsInsert u → (v : _) × (value u ≡ some v)
insert_value (update k none inc l ver) h = absurd h
insert_value (update k (some v) inc l ver) h = (v, refl)

pub insert_next : (u : Update) → IsInsert u → AreInserts (next u)
insert_next (update k none inc l ver) h = absurd h
insert_next (update k (some v) inc l ver) h = h

-- A table of insertions on the way down, with the fuel that is left.
pub record Growing (f p n : ℕ) (us : UpdateList) : Type 0 where
  pub table : Table p n us
  pub inserts : AllUpdates IsInsert us
  pub covered : AllUpdates (Covers f p) us

pub start-Growing :
    (f n : ℕ) (us : UpdateList) → Table 0 n us → AreInserts us → fuel_for us ≤ f → Growing f 0 n us
start-Growing f n us t h le = record {
  table = t;
  inserts = AreInserts-AllUpdates us h;
  covered = fuel_for-Covers us f le;
}

pub more-Growing : (f g p n : ℕ) (us : UpdateList) → Growing f p n us → f ≤ g → Growing g p n us
more-Growing f g p n us h le = record {
  table = h.table;
  inserts = h.inserts;
  covered = AllUpdates-map (Covers f p) (Covers g p) (λ u c. omega arith) us h.covered;
}

pub next-Growing :
    (f p m : ℕ) (u : Update)
    → Table 0 m (next u)
    → IsInsert u
    → Covers (suc f) p u
    → Growing (f + 2) 0 m (next u)
next-Growing f p m u t h c = start-Growing (f + 2) m (next u) t (insert_next u h) (omega arith)

-- One nibble further there are three units to spare.
pub sublist-Growing :
    (f g p n b : ℕ) (us : UpdateList)
    → Growing f p n us
    → p < n
    → f ≤ g + 3
    → Growing g (p + 1) n ((split us p).0.sublists b)
sublist-Growing f g p n b us h lt le = record {
  table = sublist-Table p n b us h.table lt;
  inserts =
      AllUpdates-map (At IsInsert p b) IsInsert (λ u z. z.0) _
        (split-AllUpdates IsInsert us p b h.inserts);
  covered =
      AllUpdates-map (At (λ u. Covers f p u × HasLength n u) p b) (Covers g (p + 1))
        (λ u z. omega (arith, z.0.0, z.0.1)) _
        (split-AllUpdates (λ u. Covers f p u × HasLength n u) us p b
          (AllUpdates-both _ _ us h.covered (Table-lengths p n us h.table)));
}

-- Where the updates all go one way, none is lost.
place_all-size :
    (us : UpdateList) (p b : ℕ) (s : Requests × ℕ)
    → AllUpdates (λ u. get_or (key u) p 0 ≡ b) us
    → size ((place_all us p s).0.sublists b) ≡ size (s.0.sublists b) + size us
place_all-size nil p b s h = omega arith
place_all-size (cons u us) p b s h =
    place_all-size us p b (place u (get_or (key u) p 0) s) h.1
    ∙ rw (h.0, place-sublists, ==_self b) (omega arith)

place_all-mask :
    (us : UpdateList) (p : ℕ) (s : Requests × ℕ)
    → AllUpdates (λ u. is_empty ((place_all us p s).0.sublists (get_or (key u) p 0)) ≡ false) us
place_all-mask nil p s = tt
place_all-mask (cons u us) p s =
    let b = get_or (key u) p 0 in
    (
      place_all_nonempty us p b (place u b s) (rw (place-sublists, ==_self b)),
      place_all-mask us p (place u b s),
    )

pub one_branch_size :
    (us : UpdateList) (p b : ℕ)
    → (split us p).1 ≡ 1
    → (split us p).0.mask b ≡ true
    → size ((split us p).0.sublists b) ≡ size us
one_branch_size us p b one m =
    place_all-size us p b (reset p, 0)
      (AllUpdates-map _ (λ u. get_or (key u) p 0 ≡ b)
        (λ u e.
          (split-IsSplit us p).one_if one (get_or (key u) p 0) b
            ((split-IsSplit us p).masked (get_or (key u) p 0) ∙ rw e) m)
        us (place_all-mask us p (reset p, 0)))
    ∙ omega arith
