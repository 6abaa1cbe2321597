-- ===== src/Update.antt =====
-- depend/monad/category/mpt/update.hpp and mpt/request.hpp: updates and their split by nibble. A key
-- is the sequence of its nibbles (the sequence that `Nibbles.Sequence` gives a view), a value the
-- list of its bytes, and a version, asserted to fit int64_t, a number.
use nomad_mpt.Prelude.{ℕ, suc, ◌+◌, ◌==◌, if◌then◌else◌, get_or, length, ltb}
use nomad_mpt.Prelude.{Bool, true, false, Option, none, some, List, [], ◌∷◌}
use nomad_mpt.Result.{Result, ok, aborted, ◌>>=◌}

mutual
  pub data Update : Type 0 where
    update :
        (key : List ℕ) (value : Option (List ℕ)) (incarnation : Bool) (next : UpdateList)
        (version : ℕ)
        → Update

  pub data UpdateList : Type 0 where
    nil : UpdateList
    cons : Update → UpdateList → UpdateList

abbrev pub key : Update → List ℕ
key (update k v inc l ver) = k

abbrev pub value : Update → Option (List ℕ)
value (update k v inc l ver) = v

abbrev pub incarnation : Update → Bool
incarnation (update k v inc l ver) = inc

abbrev pub next : Update → UpdateList
next (update k v inc l ver) = l

abbrev pub version : Update → ℕ
version (update k v inc l ver) = ver

abbrev pub is_empty : UpdateList → Bool
is_empty nil = true
is_empty (cons u us) = false

abbrev pub size : UpdateList → ℕ
size nil = 0
size (cons u us) = suc (size us)

-- `Update::is_deletion`
abbrev pub is_deletion : Update → Bool
is_deletion (update k (some v) inc l ver) = false
is_deletion (update k none inc nil ver) = true
is_deletion (update k none inc (cons u us) ver) = false

-- `make_update` of a key and its value, of a nested list alone, and `make_erase`.
unfoldable pub make_update : List ℕ → List ℕ → Bool → UpdateList → ℕ → Update
make_update k v inc l ver = update k (some v) inc l ver

unfoldable pub make_nested : List ℕ → UpdateList → ℕ → Update
make_nested k l ver = update k none false l ver

unfoldable pub make_erase : List ℕ → Update
make_erase k = update k none false nil 0

-- A 16-bit mask is the test of its bits.
abbrev pub Mask : Type 0
Mask = ℕ → Bool

abbrev pub set_bit : Mask → ℕ → Mask
set_bit mask b i = if i == b then true else mask i

pub record Requests : Type 0 where
  pub mask : Mask
  pub prefix_len : ℕ
  pub sublists : ℕ → UpdateList
  pub opt_leaf : Option Update

-- `Requests{}` and `reset`. Where the code reuses an object its sublists are empty: the one list
-- that it held has been moved out.
abbrev pub reset : ℕ → Requests
reset prefix_index = record {
  mask = λ b. false;
  prefix_len = prefix_index;
  sublists = λ b. nil;
  opt_leaf = none;
}

-- `sublists[branch].push_front(req)`
abbrev pub push_front : (ℕ → UpdateList) → ℕ → Update → ℕ → UpdateList
push_front lists branch u b = if b == branch then cons u (lists branch) else lists b

-- `sublists[branch].push_front(req)`, with the mask and the count where the list was empty.
abbrev pub place : Update → ℕ → Requests × ℕ → Requests × ℕ
place u branch (r, n) =
    if is_empty (r.sublists branch)
    then (
      record r { mask = set_bit r.mask branch; sublists = push_front r.sublists branch u },
      n + 1,
    )
    else (record r { sublists = push_front r.sublists branch u }, n)

-- One round of the loop of `split_into_sublists`, on the requests and the count. `req.key.get`
-- asserts that the key reaches to `prefix_index`.
abbrev pub split_step : Update → ℕ → Requests × ℕ → Result (Requests × ℕ)
split_step u prefix_index (r, n) =
    if length (key u) == 0
    then aborted
    else if prefix_index == length (key u)
    then ok (record r { opt_leaf = some u }, n)
    else if ltb prefix_index (length (key u))
    then ok (place u (get_or (key u) prefix_index 0) (r, n))
    else aborted

unfoldable pub split_loop : UpdateList → ℕ → Requests × ℕ → Result (Requests × ℕ)
split_loop nil prefix_index s = ok s
split_loop (cons u us) prefix_index s =
    split_step u prefix_index s >>= λ s'. split_loop us prefix_index s'

unfoldable pub split_into_sublists : UpdateList → ℕ → Result (Requests × ℕ)
split_into_sublists updates prefix_index = split_loop updates prefix_index (reset prefix_index, 0)

abbrev pub branches : List ℕ
branches = 0 ∷ 1 ∷ 2 ∷ 3 ∷ 4 ∷ 5 ∷ 6 ∷ 7 ∷ 8 ∷ 9 ∷ 10 ∷ 11 ∷ 12 ∷ 13 ∷ 14 ∷ 15 ∷ []

-- `std::countr_zero(mask)`
abbrev pub lowest : Mask → List ℕ → ℕ
lowest mask [] = 16
lowest mask (b ∷ bs) = if mask b then b else lowest mask bs

unfoldable pub get_first_branch : Requests → ℕ
get_first_branch r = lowest r.mask branches

abbrev pub front_key : UpdateList → List ℕ
front_key nil = []
front_key (cons u us) = key u

unfoldable pub get_first_path : Requests → List ℕ
get_first_path r = front_key (r.sublists (get_first_branch r))
