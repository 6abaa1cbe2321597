-- ===== src/Apply/Split.antt =====
-- `split_into_sublists` against the meaning of updates: the sublist of a branch makes the change
-- below that branch.
use nomad_mpt.Prelude.{ℕ, ◌<◌, ◌≡◌, refl, sym, arith, false}
use nomad_mpt.Prelude.{if◌then◌else◌, length, get_or}
use nomad_mpt.Prelude.{◌==◌, Bool-cases, inl, inr, ==→eq, lt→ltb}
use nomad_mpt.Result.{ok}
use nomad_mpt.Update.{Update, UpdateList, nil, cons, key, Requests, reset}
use nomad_mpt.Update.{place, split_step, split_loop, split_into_sublists}
use nomad_mpt.Apply.{AllUpdates}

-- The loop without its assertions.
abbrev pub place_all : UpdateList → ℕ → Requests × ℕ → Requests × ℕ
place_all nil p s = s
place_all (cons u us) p s = place_all us p (place u (get_or (key u) p 0) s)

abbrev pub split : UpdateList → ℕ → Requests × ℕ
split us p = place_all us p (reset p, 0)

-- Every key reaches past the place of the split.
abbrev pub Reaches : ℕ → Update → Type 0
Reaches p u = p < length (key u)

split_step-place :
    (u : Update) (p : ℕ) (s : Requests × ℕ)
    → p < length (key u)
    → split_step u p s ≡ ok (place u (get_or (key u) p 0) s)
split_step-place u p (r, n) h =
    let a : (length (key u) == 0) ≡ false = ground arith in
    let b : (p == length (key u)) ≡ false = ground arith in rw (a, b, lt→ltb _ _ h)

split_loop-place_all :
    (us : UpdateList) (p : ℕ) (s : Requests × ℕ)
    → AllUpdates (Reaches p) us
    → split_loop us p s ≡ ok (place_all us p s)
unfolding split_loop
split_loop-place_all nil p s h = refl
split_loop-place_all (cons u us) p s h =
    rw (split_step-place u p s h.0, split_loop)
      (split_loop-place_all us p (place u (get_or (key u) p 0) s) h.1)

pub split_into_sublists-split :
    (us : UpdateList) (p : ℕ)
    → AllUpdates (Reaches p) us
    → split_into_sublists us p ≡ ok (split us p)
unfolding split_into_sublists
split_into_sublists-split us p h = split_loop-place_all us p (reset p, 0) h

pub place-sublists :
    (u : Update) (c b : ℕ) (s : Requests × ℕ)
    → (place u c s).0.sublists b ≡ (if b == c then cons u (s.0.sublists c) else s.0.sublists b)
place-sublists u c b (r, n) = ground arith

-- A property of the updates goes over to each sublist, with the nibble that sent them there.
abbrev pub At : (Update → Type 0) → ℕ → ℕ → Update → Type 0
At P p b u = P u × (get_or (key u) p 0 ≡ b)

place_all-AllUpdates :
    (P : Update → Type 0) (us : UpdateList) (p b : ℕ) (s : Requests × ℕ)
    → AllUpdates P us
    → AllUpdates (At P p b) (s.0.sublists b)
    → AllUpdates (At P p b) ((place_all us p s).0.sublists b)
place_all-AllUpdates P nil p b s h k = k
place_all-AllUpdates P (cons u us) p b s h k =
    place_all-AllUpdates P us p b (place u (get_or (key u) p 0) s) h.1 (
      rw place-sublists (elim (Bool-cases (b == get_or (key u) p 0)) [
        | inl e ↦ rw e ((h.0, sym (==→eq _ _ e)), rw (← ==→eq _ _ e) k)
        | inr e ↦ rw e k
      ]))

pub split-AllUpdates :
    (P : Update → Type 0) (us : UpdateList) (p b : ℕ)
    → AllUpdates P us
    → AllUpdates (At P p b) ((split us p).0.sublists b)
split-AllUpdates P us p b h = place_all-AllUpdates P us p b (reset p, 0) h tt
