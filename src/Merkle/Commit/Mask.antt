-- ===== src/Merkle/Commit/Mask.antt =====
-- The mask has as many bits as there are entries.
use nomad_mpt.Prelude.{
  ℕ, zero, suc, ◌+◌, ◌≤◌, ◌<◌, ◌≡◌, refl, ap, ◌∙◌, arith, ◌==◌, if◌then◌else◌, Bool, true, false,
  Bool-cases, inl, inr, List, [], ◌∷◌, length,
}
use nomad_mpt.Merkle.{ChildEntry, child_data_view}
use nomad_mpt.Merkle.Base.{popcount}
use nomad_mpt.Merkle.Children.{IsAscending, child_data_view_below}
use nomad_mpt.Merkle.Commit.{mask_of}

mask_of_below : (i j : ℕ) (es : List ChildEntry) → IsAscending i es → j < i → mask_of es j ≡ false
unfolding mask_of
mask_of_below i j es asc lt = rw (child_data_view_below i j es asc lt, mask_of)

popcount_cong :
    (m m' : ℕ → Bool) (k i : ℕ) → ((j : ℕ) → i ≤ j → m j ≡ m' j) → popcount m k i ≡ popcount m' k i
unfolding popcount
popcount_cong m m' zero i h = refl
popcount_cong m m' (suc k) i h =
    rw (h i (omega arith), popcount_cong m m' k (i + 1) (λ j le. h j (omega arith)))

pub popcount_empty : (k i : ℕ) → popcount (mask_of []) k i ≡ 0
unfolding popcount mask_of child_data_view
popcount_empty zero i = refl
popcount_empty (suc k) i = omega (arith, popcount_empty k (i + 1))

mask_of_later :
    (e : ChildEntry) (es : List ChildEntry) (j : ℕ)
    → (e.branch == j) ≡ false
    → mask_of (e ∷ es) j ≡ mask_of es j
unfolding mask_of child_data_view
mask_of_later e es j h = rw (h, mask_of, child_data_view)

module _ (e : ChildEntry) (es : List ChildEntry) (k i : ℕ) where
  step_here :
      (e.branch == i) ≡ true
      → popcount (mask_of (e ∷ es)) (suc k) i ≡ suc (popcount (mask_of (e ∷ es)) k (i + 1))
  unfolding popcount mask_of child_data_view
  step_here h = rw (h, mask_of, child_data_view) (omega arith)

  step_other :
      (e.branch == i) ≡ false
      → popcount (mask_of (e ∷ es)) (suc k) i
        ≡ (if mask_of es i then 1 else 0) + popcount (mask_of (e ∷ es)) k (i + 1)
  unfolding popcount
  step_other h = rw (mask_of_later e es i h)

-- Before the first branch a bit is clear; at it, the rest follows.
pub popcount-mask_of :
    (es : List ChildEntry) (k i : ℕ)
    → IsAscending i es
    → i + k ≡ 16
    → popcount (mask_of es) k i ≡ length es
popcount-mask_of [] k i asc all = popcount_empty k i
popcount-mask_of (e ∷ es) zero i asc all = absurd (omega (arith, asc.0, asc.1))
popcount-mask_of (e ∷ es) (suc k) i asc all = elim (Bool-cases (e.branch == i)) [
  | inl here ↦
      let at : e.branch ≡ i = ground arith in
      let rest = popcount-mask_of es k (i + 1) (rw at at asc.3) (omega arith) in
      let same =
        popcount_cong (mask_of (e ∷ es)) (mask_of es) k (i + 1)
          (λ j le. mask_of_later e es j (ground arith)) in
      step_here e es k i here ∙ ap suc (same ∙ rest)
  | inr other ↦
      let from : i + 1 ≤ e.branch = ground (arith, asc.0) in
      let clear : mask_of es i ≡ false =
        mask_of_below (e.branch + 1) i es asc.3 (omega (arith, asc.0)) in
      step_other e es k i other
      ∙ rw clear (omega arith)
      ∙ popcount-mask_of (e ∷ es) k (i + 1) (from, asc.1, asc.2, asc.3) (omega arith)
]
