-- ===== src/Nibbles/Bytes.antt =====
-- The half-bytes of a buffer: reading after a write, and reading behind an advanced pointer.
use nomad_mpt.Prelude.{ℕ, zero, suc, ◌+◌, ◌*◌, ◌/◌, ◌%◌, ◌<◌, ◌≡◌, arith, List, [], ◌∷◌, All}
use nomad_mpt.Prelude.{◌==◌, Bool-cases, inl, inr, get_or, set, drop, length, length-set}
use nomad_mpt.Prelude.{get_or-drop, get_or-set_self, get_or-set_ne}
use nomad_mpt.Prelude.{if◌then◌else◌}
use native.Mathlib.Decide.{ℕ_discrete}
use nomad_mpt.Nibbles.{get_nibble, set_nibble}

abbrev pub IsByte : ℕ → Type 0
IsByte b = b < 256

abbrev pub IsNibble : ℕ → Type 0
IsNibble v = v < 16

pub get_or-IsByte : (d : List ℕ) (i : ℕ) → All IsByte d → get_or d i 0 < 256
get_or-IsByte [] i h = omega arith
get_or-IsByte (b ∷ d) zero h = h.0
get_or-IsByte (b ∷ d) (suc i) h = get_or-IsByte d i h.1

pub get_nibble-IsNibble : (d : List ℕ) (n : ℕ) → All IsByte d → IsNibble (get_nibble d n)
unfolding get_nibble
get_nibble-IsNibble d n h = ground (arith, get_or-IsByte d (n / 2) h)

pub length-set_nibble : (d : List ℕ) (n v : ℕ) → length (set_nibble d n v) ≡ length d
unfolding set_nibble
length-set_nibble d n v = length-set d (n / 2) _

-- A written nibble reads back.
pub get_nibble-set_nibble_self :
    (d : List ℕ) (n v : ℕ) → n < 2 * length d → v < 16 → get_nibble (set_nibble d n v) n ≡ v
unfolding get_nibble set_nibble
get_nibble-set_nibble_self d n v h k = elim (Bool-cases (n % 2 == 0)) [
  | inl e ↦ rw (e, get_or-set_self d (n / 2) _ 0 (omega arith)) (omega arith)
  | inr e ↦ rw (e, get_or-set_self d (n / 2) _ 0 (omega arith)) (omega arith)
]

-- The byte that `set_nibble` writes, over `r`.
half_written :
    (r n m v : ℕ)
    → r < 256
    → v < 16
    → (n ≡ m → ⊥)
    → n / 2 ≡ m / 2
    → (if m % 2 == 0
        then (if n % 2 == 0 then r % 16 + v % 16 * 16 else r % 256 / 16 * 16 + v % 16) / 16
        else (if n % 2 == 0 then r % 16 + v % 16 * 16 else r % 256 / 16 * 16 + v % 16) % 16)
      ≡ (if m % 2 == 0 then r / 16 else r % 16)
half_written r n m v hr hv ne e = ground arith

-- Every other nibble stays, the other half of the same byte included.
pub get_nibble-set_nibble_ne :
    (d : List ℕ) (n m v : ℕ)
    → All IsByte d
    → n < 2 * length d
    → v < 16
    → (n ≡ m → ⊥)
    → get_nibble (set_nibble d n v) m ≡ get_nibble d m
unfolding get_nibble set_nibble
get_nibble-set_nibble_ne d n m v b h k ne = elim (ℕ_discrete (n / 2) (m / 2)) [
  | yes e ↦ rw (← e) (
      rw (get_or-set_self d (n / 2) _ 0 (omega arith))
        (half_written _ n m v (get_or-IsByte d (n / 2) b) k ne e))
  | no e ↦ rw (get_or-set_ne d (n / 2) (m / 2) _ 0 e)
]

pub set-IsByte : (d : List ℕ) (i w : ℕ) → All IsByte d → w < 256 → All IsByte (set d i w)
set-IsByte [] i w h k = h
set-IsByte (x ∷ d) zero w h k = (k, h.1)
set-IsByte (x ∷ d) (suc i) w h k = (h.0, set-IsByte d i w h.1 k)

pub set_nibble-IsByte : (d : List ℕ) (n v : ℕ) → All IsByte d → All IsByte (set_nibble d n v)
unfolding set_nibble
set_nibble-IsByte d n v h = set-IsByte d (n / 2) _ h (ground arith)

-- A pointer advanced by `b / 2` bytes sees nibble `b + i` at `b % 2 + i`.
pub get_nibble-drop :
    (d : List ℕ) (b i : ℕ) → get_nibble (drop (b / 2) d) (b % 2 + i) ≡ get_nibble d (b + i)
unfolding get_nibble
get_nibble-drop d b i =
    let half : b / 2 + (b % 2 + i) / 2 ≡ (b + i) / 2 = omega arith in
    let parity : (b % 2 + i) % 2 ≡ (b + i) % 2 = omega arith in
    rw (get_or-drop d (b / 2) ((b % 2 + i) / 2) 0, half, parity)
