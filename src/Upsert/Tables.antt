-- ===== src/Upsert/Tables.antt =====
-- A list of updates on the way down: the facts that each level of the recursion keeps.
use nomad_mpt.Prelude.{
  ℕ, zero, suc, ◌+◌, ◌-◌, ◌<◌, ◌≤◌, ◌≡◌, refl, sym, ap, ◌∙◌, subst, arith, true, false,
}
use nomad_mpt.Prelude.{
  Option, none, some, List, [], ◌∷◌, ◌++◌, drop, take, All, get_or, Bool-cases, inl, inr,
}
use nomad_mpt.Prelude.{◌==◌, drop-get_or, take-suc, get_or-drop, length-drop}
use nomad_mpt.Result.{Result, ok, >>=-eq-ok}
use nomad_mpt.Update.{Update, update, UpdateList, nil, cons, key, value, next}
use nomad_mpt.Update.{Requests, split_step, split_loop}
use nomad_mpt.Lookup.{strip, at_end}
use nomad_mpt.Apply.{
  Map, no_keys, apply_in, apply_one, apply_in-none, AllUpdates, Distinct, IsEntry, IsTable,
}
use nomad_mpt.Apply.{IsTable-AllUpdates, IsTable-Distinct}
use nomad_mpt.Apply.Split.{split, split-AllUpdates, At, Reaches}
use nomad_mpt.Apply.Sublist.{HasLength, split-apply_in, split-Distinct}
use nomad_mpt.Nibbles.Bytes.{IsNibble}

pub AllUpdates-map :
    (P Q : Update → Type 0)
    → ((u : Update) → P u → Q u)
    → (us : UpdateList) → AllUpdates P us
    → AllUpdates Q us
AllUpdates-map P Q f nil h = tt
AllUpdates-map P Q f (cons u us) h = (f u h.0, AllUpdates-map P Q f us h.1)

pub AllUpdates-both :
    (P Q : Update → Type 0) (us : UpdateList)
    → AllUpdates P us
    → AllUpdates Q us
    → AllUpdates (λ u. P u × Q u) us
AllUpdates-both P Q nil h k = tt
AllUpdates-both P Q (cons u us) h k = ((h.0, k.0), AllUpdates-both P Q us h.1 k.1)

pub entry_length : (n : ℕ) (u : Update) → IsEntry n u → HasLength n u
entry_length n (update k v inc l ver) h = h.0

entry_pos : (n : ℕ) (u : Update) → IsEntry n u → 0 < n
entry_pos n (update k v inc l ver) h = h.1

pub entry_next : (n : ℕ) (u : Update) → IsEntry n u → (m : ℕ) × IsTable m (next u)
entry_next n (update k v inc l ver) h = h.3

get_or-IsNibble : (xs : List ℕ) (i : ℕ) → All IsNibble xs → get_or xs i 0 < 16
get_or-IsNibble [] i h = omega arith
get_or-IsNibble (x ∷ xs) zero h = h.0
get_or-IsNibble (x ∷ xs) (suc i) h = get_or-IsNibble xs i h.1

pub entry_nibble : (n p : ℕ) (u : Update) → IsEntry n u → p < n → get_or (key u) p 0 < 16
entry_nibble n p (update k v inc l ver) h lt = get_or-IsNibble k p h.2

-- Entries of length `n` that differ from nibble `p` on.
pub record Table (p n : ℕ) (us : UpdateList) : Type 0 where
  pub entries : AllUpdates (IsEntry n) us
  pub distinct : Distinct p us

pub Table-lengths : (p n : ℕ) (us : UpdateList) → Table p n us → AllUpdates (HasLength n) us
Table-lengths p n us t = AllUpdates-map (IsEntry n) (HasLength n) (entry_length n) us t.entries

pub Table-Reaches : (p n : ℕ) (us : UpdateList) → Table p n us → p < n → AllUpdates (Reaches p) us
Table-Reaches p n us t lt =
    AllUpdates-map (HasLength n) (Reaches p) (λ u h. omega arith) us (Table-lengths p n us t)

pub IsTable-Table : (n : ℕ) (us : UpdateList) → IsTable n us → Table 0 n us
IsTable-Table n us h = record {
  entries = IsTable-AllUpdates n us h;
  distinct = IsTable-Distinct n us h;
}

pub IsTable-Reaches : (n : ℕ) (us : UpdateList) → IsTable n us → AllUpdates (Reaches 0) us
IsTable-Reaches n us h =
    AllUpdates-map (IsEntry n) (Reaches 0)
      (λ u e. omega (arith, entry_length n u e, entry_pos n u e)) us (IsTable-AllUpdates n us h)

-- A sublist is a table from the next nibble on.
pub sublist-Table :
    (p n b : ℕ) (us : UpdateList)
    → Table p n us
    → p < n
    → Table (p + 1) n ((split us p).0.sublists b)
sublist-Table p n b us t lt = record {
  entries =
      AllUpdates-map (At (IsEntry n) p b) (IsEntry n) (λ u h. h.0) _
        (split-AllUpdates (IsEntry n) us p b t.entries);
  distinct = split-Distinct us p n b lt (Table-lengths p n us t) t.distinct;
}

-- `split-apply_in` where there may be no update at all.
pub sublist-apply_in :
    (us : UpdateList) (p n b : ℕ) (m : Map) (old : Option (List ℕ)) (k : List ℕ)
    → Table p n us
    → AllUpdates (Reaches p) us
    → apply_in ((split us p).0.sublists b) (p + 1) (λ k'. m (b ∷ k')) old k
      ≡ apply_in us p m old (b ∷ k)
sublist-apply_in nil p n b m old k t h = unfold apply_in in refl
sublist-apply_in (cons u us) p n b m old k t h =
    split-apply_in (cons u us) p n b m old k
      (omega (arith, h.0, (Table-lengths p n (cons u us) t).0)) (Table-lengths p n (cons u us) t)
      t.distinct

-- A key that ends where the split is made is in no sublist.
pub apply_in_short :
    (us : UpdateList) (p : ℕ) (m : Map) (old : Option (List ℕ))
    → AllUpdates (Reaches p) us
    → apply_in us p m old [] ≡ old
apply_in_short nil p m old h = unfold apply_in in refl
apply_in_short (cons u us) p m old h =
    apply_in-none u us p m old [] (rw (drop-get_or (key u) p 0 h.0)) ∙ apply_in_short us p m old h.1

-- An update of a key that is not there.
pub apply_one-new :
    (u : Update) (r : List ℕ)
    → apply_one u no_keys r ≡ at_end (value u) (λ b r'. apply_in (next u) 0 no_keys none (b ∷ r')) r
unfolding apply_one
apply_one-new (update k none inc nil ver) [] = refl
apply_one-new (update k none inc nil ver) (b ∷ r) = refl
apply_one-new (update k none true (cons w l) ver) [] = refl
apply_one-new (update k none false (cons w l) ver) [] = refl
apply_one-new (update k none true (cons w l) ver) (b ∷ r) = refl
apply_one-new (update k none false (cons w l) ver) (b ∷ r) = refl
apply_one-new (update k (some v) true l ver) [] = refl
apply_one-new (update k (some v) false l ver) [] = refl
apply_one-new (update k (some v) true l ver) (b ∷ r) = refl
apply_one-new (update k (some v) false l ver) (b ∷ r) = refl

pub strip-IsNibble :
    (p k : List ℕ) {r : List ℕ} → strip p k ≡ some r → All IsNibble k → All IsNibble r
strip-IsNibble [] k e h = subst (All IsNibble) (cc e) h
strip-IsNibble (x ∷ p) [] e h = cc
strip-IsNibble (x ∷ p) (y ∷ k) e h = elim (Bool-cases (x == y)) [
  | inl t ↦ strip-IsNibble p k (rw t at e) h.1
  | inr f ↦ cc (rw f at e)
]

split_step_ended :
    (u : Update) (n : ℕ) (s t : Requests × ℕ) → HasLength n u → split_step u n s ≡ ok t → t.1 ≡ s.1
split_step_ended u n (r, c) t h e = ground arith

split_loop-cons :
    (u : Update) (us : UpdateList) (n : ℕ) (s s' : Requests × ℕ)
    → split_loop (cons u us) n s ≡ ok s'
    → (t : Requests × ℕ) × (split_step u n s ≡ ok t) × (split_loop us n t ≡ ok s')
unfolding split_loop
split_loop-cons u us n s s' e = >>=-eq-ok (split_step u n s) _ e

-- A split at the end of every key finds no branch.
pub split_ended :
    (us : UpdateList) (n : ℕ) (s s' : Requests × ℕ)
    → AllUpdates (HasLength n) us
    → split_loop us n s ≡ ok s'
    → s'.1 ≡ s.1
split_ended nil n s s' h e = unfold split_loop in ap second (sym e)
  where
    second : Result (Requests × ℕ) → ℕ
    second (ok t) = t.1
    second _ = s.1
split_ended (cons u us) n s s' h e =
    let (t, h1, h2) = split_loop-cons u us n s s' e in
    split_ended us n t s' h.1 h2 ∙ split_step_ended u n s t h.0 h1

-- The nibbles of the keys from `start` up to `p`.
abbrev pub Shares : ℕ → ℕ → List ℕ → Update → Type 0
Shares start p seg u = take (p - start) (drop start (key u)) ≡ seg

pub Shares-next :
    (start p b n : ℕ) (seg : List ℕ) (u : Update)
    → start ≤ p
    → p < n
    → HasLength n u
    → Shares start p seg u
    → get_or (key u) p 0 ≡ b
    → Shares start (p + 1) (seg ++ (b ∷ [])) u
Shares-next start p b n seg u le lt len h e =
    let one : p + 1 - start ≡ suc (p - start) = omega arith in
    let back : start + (p - start) ≡ p = omega arith in
    rw one (
      take-suc (drop start (key u)) (p - start) 0 (omega (arith, length-drop start (key u)))
      ∙ rw (get_or-drop, back, e, h))
