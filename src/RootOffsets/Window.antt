-- ===== src/RootOffsets/Window.antt =====
-- The versions that the ring holds: a window no longer than its capacity, outside of which every entry is
-- invalid.
use nomad_mpt.Prelude.{
  ℕ, ◌+◌, ◌-◌, ◌*◌, ◌/◌, ◌%◌, ◌^◌, ◌≤◌, ◌<◌, ◌≡◌, refl, sym, arith, leb, ltb, if◌then◌else◌, ◌&&◌,
  true, Bool-cases, inl, inr, Option, none, some, length-set, get_or-set_self, get_or-set_ne,
  ltb→lt,
}
use native.Mathlib.Nat.{div-add-mod, mod-lt, lt_of_mul-lt-mul_left, one-le-pow, add-mod_right}
use nomad_mpt.RootOffsets.{
  ChunkOffset, is_invalid, invalid_offset, RootOffsets, capacity, root_at, put,
}

abbrev pub valid : ChunkOffset → Option ChunkOffset
valid o = if is_invalid o then none else some o

-- The offset of the root of a version, where the window holds it and it is valid.
unfoldable pub roots : RootOffsets → ℕ → Option ChunkOffset
roots r v =
    if leb r.version_lower_bound v && ltb v r.next_version then valid (root_at r v) else none

pub record IsRing (bits : ℕ) (r : RootOffsets) : Type 0 where
  pub size : capacity r ≡ 2 ^ bits
  pub fits : r.next_version < 2 ^ 64
  pub ordered : r.version_lower_bound ≤ r.next_version
  pub holds : r.next_version ≤ r.version_lower_bound + 2 ^ bits
  pub outside :
      (v : ℕ)
      → r.next_version ≤ v
      → v < r.version_lower_bound + 2 ^ bits
      → is_invalid (root_at r v) ≡ true

-- Two numbers less than `m` apart have different remainders.
mod_apart : (m u v : ℕ) → u < v → v < u + m → u % m ≡ v % m → ⊥
mod_apart m u v less near same =
    let a = div-add-mod u m in
    let b = div-add-mod v m in
    let up : u / m < v / m = lt_of_mul-lt-mul_left m (omega (arith, a, b, same)) in
    let more : m * (u / m) + m ≤ m * (v / m) = step (u / m) (v / m) up in
    absurd (omega (arith, a, b, same, more))
  where
    step : (p q : ℕ) → p < q → m * p + m ≤ m * q
    step p q h = let d : q ≡ p + 1 + (q - p - 1) = omega arith in rw d (grind arith)

mod_ne : (m u v : ℕ) → (u ≡ v → ⊥) → v < u + m → u < v + m → (u % m ≡ v % m → ⊥)
mod_ne m u v ne near near' same = elim (Bool-cases (ltb u v)) [
  | inl e ↦ mod_apart m u v (ltb→lt _ _ e) near same
  | inr e ↦ elim (Bool-cases (ltb v u)) [
    | inl f ↦ mod_apart m v u (ltb→lt _ _ f) near' (sym same)
    | inr f ↦ absurd (ne (ground (arith, e, f)))
  ]
]

module _ (bits : ℕ) (r : RootOffsets) (size : capacity r ≡ 2 ^ bits) where
  pub root_at-put_self : (i : ℕ) (o : ChunkOffset) → root_at (put r i o) i ≡ o
  unfolding root_at
  root_at-put_self i o =
      let pos : 1 ≤ 2 ^ bits = one-le-pow bits 2 (omega arith) in
      let low : i % 2 ^ bits < 2 ^ bits = mod-lt i (omega (arith, pos)) in
      rw (length-set r.chunks (i % capacity r) o)
        (get_or-set_self r.chunks (i % capacity r) o invalid_offset (rw size low))

  pub root_at-put_ne :
      (i v : ℕ) (o : ChunkOffset)
      → (i ≡ v → ⊥)
      → v < i + 2 ^ bits
      → i < v + 2 ^ bits
      → root_at (put r i o) v ≡ root_at r v
  unfolding root_at
  root_at-put_ne i v o ne near near' = rw (length-set r.chunks (i % capacity r) o) (
      get_or-set_ne r.chunks (i % capacity r) (v % capacity r) o invalid_offset
        (rw size (mod_ne (2 ^ bits) i v ne near near')))

  -- One lap later the entry is the same.
  pub root_at_lap : (v : ℕ) → root_at r (v + 2 ^ bits) ≡ root_at r v
  unfolding root_at
  root_at_lap v = rw (size, add-mod_right) refl
