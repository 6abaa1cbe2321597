-- ===== src/Apply/Contract.antt =====
-- What `split_into_sublists` promises for keys that all go on past the nibble.
use nomad_mpt.Prelude.{ℕ, ◌+◌, ◌<◌, ◌≡◌, arith, not, none, Option, List, ◌∷◌}
use nomad_mpt.Result.{ok}
use nomad_mpt.Update.{UpdateList, nil, cons, is_empty, Requests, split_into_sublists}
use nomad_mpt.Apply.{Map, apply_in, AllUpdates, Distinct}
use nomad_mpt.Apply.Split.{split, split_into_sublists-split, Reaches}
use nomad_mpt.Apply.Masks.{split-IsSplit}
use nomad_mpt.Apply.Sublist.{HasLength, split-apply_in, split-Distinct}

all_reach :
    (us : UpdateList) (p n : ℕ) → p < n → AllUpdates (HasLength n) us → AllUpdates (Reaches p) us
all_reach nil p n lt h = tt
all_reach (cons u us) p n lt h = (omega (arith, h.0), all_reach us p n lt h.1)

-- For keys of one length that go past nibble `p` and differ from it on `split_into_sublists` fails no
-- assertion and sets no leaf; its mask has the branches with a sublist, and the sublist of a branch,
-- whose keys still differ, makes the change that the whole list makes below the branch.
pub split_into_sublists_lem :
    (us : UpdateList) (p n : ℕ)
    → p < n
    → AllUpdates (HasLength n) us
    → Distinct p us
    → (r : Requests) × (count : ℕ) × (split_into_sublists us p ≡ ok (r, count))
      × (r.opt_leaf ≡ none)
      × ((b : ℕ)
          → (r.mask b ≡ not (is_empty (r.sublists b)))
            × Distinct (p + 1) (r.sublists b)
            × ((m : Map) (old : Option (List ℕ)) (k : List ℕ)
                → apply_in (r.sublists b) (p + 1) (λ k'. m (b ∷ k')) old k
                  ≡ apply_in us p m old (b ∷ k)))
split_into_sublists_lem us p n lt h d = (
  (split us p).0,
  (split us p).1,
  split_into_sublists-split us p (all_reach us p n lt h),
  (split-IsSplit us p).no_leaf,
  λ b. (
    (split-IsSplit us p).masked b,
    split-Distinct us p n b lt h d,
    λ m old k. split-apply_in us p n b m old k lt h d,
  ),
)
