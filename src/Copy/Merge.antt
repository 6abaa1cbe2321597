-- ===== src/Copy/Merge.antt =====
-- What the children that copy_trie makes hold below each branch.
use nomad_mpt.Prelude.{
  ℕ, zero, suc, ◌+◌, ◌≤◌, ◌<◌, ◌≡◌, refl, arith, ◌==◌, if◌then◌else◌, Option-cases, inl, inr, none,
  some,
}
use nomad_mpt.Node.{Node, Children, no_child, child, next_at}
use native.Mathlib.Decide.{ℕ_discrete}
use nomad_mpt.Copy.{add_branch_loop, set_next}

module _ (old : Children) (new_branch : ℕ) (n : Node) where
  -- No child stands before the branches that the loop has still to come to.
  below_loop : (k i b : ℕ) → b < i → next_at b (add_branch_loop old new_branch n k i) ≡ none
  unfolding add_branch_loop next_at
  below_loop zero i b h = refl
  below_loop (suc k) i b h = elim (Option-cases (next_at i old)) [
    | inl e ↦ rw e (ground (arith, below_loop k (i + 1) b))
    | inr (c, e) ↦ rw e (ground (arith, below_loop k (i + 1) b))
  ]

  pub next_at-add_branch_loop :
      (k i b : ℕ)
      → i ≤ b
      → b < i + k
      → next_at b (add_branch_loop old new_branch n k i)
        ≡ (if b == new_branch then some n else next_at b old)
  unfolding add_branch_loop next_at
  next_at-add_branch_loop zero i b h lt = absurd (omega arith)
  next_at-add_branch_loop (suc k) i b h lt = elim (ℕ_discrete b i) [
    | yes e ↦ rw e (elim (Option-cases (next_at i old)) [
      | inl o ↦ rw o (ground (arith, below_loop k (i + 1) i))
      | inr (c, o) ↦ rw o (ground arith)
    ])
    | no ne ↦ elim (Option-cases (next_at i old)) [
      | inl o ↦ rw o (ground (arith, next_at-add_branch_loop k (i + 1) b))
      | inr (c, o) ↦ rw o (ground (arith, next_at-add_branch_loop k (i + 1) b))
    ]
  ]

pub next_at-set_next :
    (cs : Children) (x b : ℕ) (c n : Node)
    → next_at x cs ≡ some c
    → next_at b (set_next x n cs) ≡ (if b == x then some n else next_at b cs)
unfolding set_next next_at
next_at-set_next no_child x b c n e = cc
next_at-set_next (child y m cs) x b c n e = ground (arith, next_at-set_next cs x b c n)
