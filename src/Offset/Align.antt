-- ===== src/Offset/Align.antt =====
-- Rounding to a multiple of a power of two.
use nomad_mpt.Prelude.{ℕ, ◌+◌, ◌-◌, ◌*◌, ◌/◌, ◌%◌, ◌^◌, ◌≤◌, ◌<◌, ◌≡◌, ◌∙◌, arith}
use native.Mathlib.Nat.{one-le-pow, div-add-mod, mod-lt, mod-eq_of_lt, add-mul-mod_self_left}
use nomad_mpt.Offset.{clear_low, round_up_align, round_down_align}

clear_low_lem :
    (bits x : ℕ)
    → (clear_low bits x ≤ x) × (x < clear_low bits x + 2 ^ bits) × (clear_low bits x % 2 ^ bits ≡ 0)
clear_low_lem bits x =
    let m = 2 ^ bits in
    let pos : 1 ≤ m = one-le-pow bits 2 (omega arith) in
    let split = div-add-mod x m in
    let small : x % m < m = mod-lt x (omega (arith, pos)) in
    let whole : clear_low bits x ≡ 0 + m * (x / m) = omega (arith, split) in
    (
      omega arith,
      omega (arith, small),
      rw whole (add-mul-mod_self_left 0 m (x / m) ∙ mod-eq_of_lt (omega (arith, pos))),
    )

-- Rounded up, a number of `w` bits is the least multiple of the power of two that is not below it,
-- where the sum fits into the bits; rounded down, it is the greatest that is not above it.
pub round_align_lem :
    (w bits x : ℕ)
    → x + (2 ^ bits - 1) < 2 ^ w
    → (x ≤ round_up_align w bits x)
      × (round_up_align w bits x < x + 2 ^ bits)
      × (round_up_align w bits x % 2 ^ bits ≡ 0)
      × (round_down_align bits x ≤ x)
      × (x < round_down_align bits x + 2 ^ bits)
      × (round_down_align bits x % 2 ^ bits ≡ 0)
unfolding round_up_align round_down_align
round_align_lem w bits x fits =
    let (a, b, c) = clear_low_lem bits (x + (2 ^ bits - 1)) in
    let (d, e, f) = clear_low_lem bits x in
    let pos : 1 ≤ 2 ^ bits = one-le-pow bits 2 (omega arith) in
    rw (mod-eq_of_lt fits) (omega (arith, b, pos), omega (arith, a, pos), c, d, e, f)
