-- ===== src/Result.antt =====
-- The outcome of a function that can stop at a failed MONAD_ASSERT. `stuck` is no outcome of the
-- C++ code: the fuel of the model ran out.
use nomad_mpt.Prelude.{◌≡◌, refl, Bool, true, false}

pub data Result {ℓ} (Out : Type ℓ) : Type ℓ where
  stuck aborted : Result Out
  ok : (out : Out) → Result Out

module _ {ℓ κ} {In : Type ℓ} {Out : Type κ} where
  infixl 5 ◌>>=◌
  abbrev pub ◌>>=◌ : (first : Result In) → (rest : In → Result Out) → Result Out
  stuck >>= rest = stuck
  aborted >>= rest = aborted
  ok x >>= rest = rest x

  -- What a finished chain tells of its first step.
  pub >>=-eq-ok :
      (first : Result In) (rest : In → Result Out) {y : Out}
      → (first >>= rest) ≡ ok y
      → (x : In) × (first ≡ ok x) × (rest x ≡ ok y)
  >>=-eq-ok stuck rest e = cc
  >>=-eq-ok aborted rest e = cc
  >>=-eq-ok (ok x) rest e = (x, refl, e)

-- MONAD_ASSERT
abbrev pub check : Bool → Result (Unit {0})
check false = aborted
check true = ok tt

module _ {κ} {Out : Type κ} where
  infixl 5 ◌>>◌
  abbrev pub ◌>>◌ : Result (Unit {0}) → Result Out → Result Out
  asserted >> after = asserted >>= λ _. after

  -- A finished chain has passed its assertion.
  pub check-eq-ok :
      (test : Bool) (after : Result Out) {y : Out}
      → (check test >> after) ≡ ok y
      → (test ≡ true) × (after ≡ ok y)
  check-eq-ok false after e = cc
  check-eq-ok true after e = (refl, e)
