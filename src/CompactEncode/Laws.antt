-- ===== src/CompactEncode/Laws.antt =====
-- The encoding of a path is its nibbles behind a prefix that tells a leaf from an extension and an
-- odd number of nibbles from an even one.
use nomad_mpt.Prelude.{
  ℕ, zero, suc, ◌+◌, ◌-◌, ◌*◌, ◌/◌, ◌%◌, ◌≤◌, ◌<◌, ◌≡◌, refl, ap, ◌∙◌, arith, Bool, true, false,
  Bool-cases, inl, inr,
}
use nomad_mpt.Prelude.{
  ◌==◌, ==→eq, ==_ne, if◌then◌else◌, some, List, [], ◌∷◌, ◌++◌, All, length, set, take, get_or,
  length-set, get_or-set_self,
}
use nomad_mpt.Nibbles.{NibblesView, nibble_size, get, get_nibble, set_nibble}
use nomad_mpt.Nibbles.Bytes.{IsByte, IsNibble, set-IsByte}
use nomad_mpt.Nibbles.Sequence.{
  IsView, nibbles, run, run_cong, bytes_of, get_at, length-run, nibbles-IsNibble,
}
use nomad_mpt.Nibbles.Concat.{write, length-write, run-write, get_nibble-write_below}
use nomad_mpt.CompactEncode.{compact_encode, encode_loop, first_byte}
use native.Mathlib.Nat.{add_assoc, add-zero}
use mathlib.Core.Path.{ap₂}

-- The prefix of the hex-prefix encoding: two nibbles before an even number, one before an odd one.
abbrev pub prefix : Bool → Bool → List ℕ
prefix terminating even =
    let flag : ℕ = if terminating then 2 else 0 in if even then flag ∷ 0 ∷ [] else (flag + 1) ∷ []

encode_loop_step :
    (v : NibblesView) (k i ci x : ℕ) (d : List ℕ)
    → get v i ≡ some x
    → encode_loop v (suc k) i ci d ≡ encode_loop v k (i + 1) (ci + 1) (set_nibble d ci x)
unfolding encode_loop
encode_loop_step v k i ci x d e = rw (e, encode_loop)

encode_loop-write :
    (v : NibblesView) (k i ci : ℕ) (d : List ℕ)
    → IsView v
    → i + k ≤ nibble_size v
    → encode_loop v k i ci d ≡ some (write d (run (bytes_of v.buffer) (v.begin_nibble + i) k) ci)
encode_loop-write v zero i ci d h le = unfold encode_loop in refl
encode_loop-write v (suc k) i ci d h le =
    let x = get_nibble (bytes_of v.buffer) (v.begin_nibble + i) in
    encode_loop_step v k i ci x d (get_at v i h (omega arith))
    ∙ rw add_assoc (encode_loop-write v k (i + 1) (ci + 1) (set_nibble d ci x) h (omega arith))

get_or-take : (d : List ℕ) (m i : ℕ) → i < m → get_or (take m d) i 0 ≡ get_or d i 0
get_or-take [] (suc m) zero h = refl
get_or-take [] (suc m) (suc i) h = refl
get_or-take (x ∷ d) (suc m) zero h = refl
get_or-take (x ∷ d) (suc m) (suc i) h = get_or-take d m i (omega arith)
get_or-take d zero i h = absurd (omega arith)

get_nibble-take : (d : List ℕ) (m j : ℕ) → j < 2 * m → get_nibble (take m d) j ≡ get_nibble d j
unfolding get_nibble
get_nibble-take d m j h = rw (get_or-take d m (j / 2) (omega arith))

run-take : (d : List ℕ) (m i n : ℕ) → i + n ≤ 2 * m → run (take m d) i n ≡ run d i n
run-take d m i n h = run_cong (take m d) d i i n (λ k l. get_nibble-take d m (i + k) (omega arith))

-- The nibbles of the first byte, before and after the others are written.
first_nibbles :
    (res : List ℕ) (b : ℕ)
    → 0 < length res
    → (get_nibble (set res 0 b) 0 ≡ b / 16) × (get_nibble (set res 0 b) 1 ≡ b % 16)
unfolding get_nibble
first_nibbles res b h = (rw (get_or-set_self res 0 b 0 h), rw (get_or-set_self res 0 b 0 h))

-- The two nibbles of the first byte and what is written behind them.
spelled :
    (res : List ℕ) (b : ℕ) (xs : List ℕ) (m : ℕ)
    → All IsByte res
    → All IsNibble xs
    → b < 256
    → suc (suc (length xs)) ≤ 2 * length res
    → suc (suc (length xs)) ≡ 2 * m
    → run (take m (write (set res 0 b) xs 2)) 0 (2 * m) ≡ (b / 16) ∷ (b % 16) ∷ xs
spelled res b xs m bytes v small fits even =
    run-take (write d xs 2) m 0 (2 * m) (omega arith)
    ∙ rw (← even) (
        ap₂ ◌∷◌ (below 0 (omega arith) ∙ halves.0)
          (ap₂ ◌∷◌ (below 1 (omega arith) ∙ halves.1) (run-write d xs 2 d_bytes v room)))
  where
    d : List ℕ
    d = set res 0 b

    d_bytes : All IsByte d
    d_bytes = set-IsByte res 0 b bytes small

    room : 2 + length xs ≤ 2 * length d
    room = omega (arith, length-set res 0 b, fits)

    halves : (get_nibble d 0 ≡ b / 16) × (get_nibble d 1 ≡ b % 16)
    halves = first_nibbles res b (omega (arith, fits))

    below : (j : ℕ) → j < 2 → get_nibble (write d xs 2) j ≡ get_nibble d j
    below j lt = get_nibble-write_below d xs 2 j d_bytes v room lt

length-take_le : (d : List ℕ) (m : ℕ) → m ≤ length d → length (take m d) ≡ m
length-take_le d zero h = refl
length-take_le [] (suc m) h = absurd (omega arith)
length-take_le (x ∷ d) (suc m) h = omega (arith, length-take_le d m (omega arith))

-- The bytes that are taken of what is written.
written_length :
    (res : List ℕ) (b : ℕ) (xs : List ℕ) (m : ℕ)
    → m ≤ length res
    → length (take m (write (set res 0 b) xs 2)) ≡ m
written_length res b xs m h =
    length-take_le (write (set res 0 b) xs 2) m
      (omega (arith, length-write (set res 0 b) xs 2, length-set res 0 b, h))

used : (n : ℕ) → (if n == 0 then 1 else n / 2 + 1) ≡ n / 2 + 1
used n = ground arith

pub flag_small : (b : Bool) → first_byte b < 33
flag_small true = omega arith
flag_small false = omega arith

pub even_run :
    (res : List ℕ) (v : NibblesView) (terminating : Bool)
    → IsView v
    → (nibble_size v % 2 == 0) ≡ true
    → compact_encode res v terminating
      ≡ some
          (take (nibble_size v / 2 + 1) (write (set res 0 (first_byte terminating)) (nibbles v) 2))
unfolding compact_encode
even_run res v terminating h e = rw (
  compact_encode,
  e,
  encode_loop-write v (nibble_size v) 0 2 (set res 0 (first_byte terminating)) h (omega arith),
  add-zero,
  used,
)

pub odd_run :
    (res : List ℕ) (v : NibblesView) (terminating : Bool) (m : ℕ)
    → IsView v
    → (nibble_size v % 2 == 0) ≡ false
    → nibble_size v ≡ suc m
    → compact_encode res v terminating
      ≡ some (
          take (nibble_size v / 2 + 1) (
            write
              (set res 0
                (first_byte terminating + 16 + get_nibble (bytes_of v.buffer) v.begin_nibble))
              (run (bytes_of v.buffer) (v.begin_nibble + 1) m)
              2))
unfolding compact_encode
odd_run res v terminating m h e n =
    let first = get_at v 0 h (omega (arith, n)) in
    let rest : nibble_size v - 1 ≡ m = omega (arith, n) in
    let x = get_nibble (bytes_of v.buffer) v.begin_nibble in
    rw (
      compact_encode,
      e,
      first,
      add-zero,
      rest,
      encode_loop-write v m 1 2 (set res 0 (first_byte terminating + 16 + x)) h (omega (arith, n)),
      used,
    )

even_prefix :
    (terminating : Bool)
    → (first_byte terminating / 16 ≡ (if terminating then 2 else 0))
      × (first_byte terminating % 16 ≡ 0)
even_prefix true = (refl, refl)
even_prefix false = (refl, refl)

odd_prefix :
    (terminating : Bool) (x : ℕ)
    → x < 16
    → ((first_byte terminating + 16 + x) / 16 ≡ (if terminating then 2 else 0) + 1)
      × ((first_byte terminating + 16 + x) % 16 ≡ x)
odd_prefix true x h = (omega arith, omega arith)
odd_prefix false x h = (omega arith, omega arith)

-- Into a buffer of bytes that is long enough `compact_encode` writes a well-formed view of `n` nibbles as
-- exactly `n / 2 + 1` bytes, whose nibbles are the prefix and the nibbles of the view.
pub compact_encode_lem :
    (res : List ℕ) (v : NibblesView) (terminating : Bool)
    → IsView v
    → All IsByte res
    → nibble_size v / 2 + 1 ≤ length res
    → (bytes : List ℕ) × (compact_encode res v terminating ≡ some bytes)
      × (length bytes ≡ nibble_size v / 2 + 1)
      × (run bytes 0 (2 * (nibble_size v / 2 + 1))
          ≡ prefix terminating (nibble_size v % 2 == 0) ++ nibbles v)
compact_encode_lem res v terminating h bytes room = elim (Bool-cases (nibble_size v % 2 == 0)) [
  | inl e ↦
      let n = nibble_size v in
      let len = length-run (bytes_of v.buffer) v.begin_nibble n in
      let even = ==→eq _ _ e in
      let (a, b) = even_prefix terminating in
      (
        _,
        even_run res v terminating h e,
        written_length res (first_byte terminating) (nibbles v) (n / 2 + 1) room,
        spelled res (first_byte terminating) (nibbles v) (n / 2 + 1) bytes (nibbles-IsNibble v h)
              (omega (arith, flag_small terminating)) (omega (arith, len, even))
              (omega (arith, len, even))
            ∙ rw (e, a, b),
      )
  | inr e ↦
      let n = nibble_size v in
      let odd = ==_ne _ _ e in
      let m : ℕ = n - 1 in
      let n_is : n ≡ suc m = omega (arith, odd) in
      let x = get_nibble (bytes_of v.buffer) v.begin_nibble in
      let rest = run (bytes_of v.buffer) (v.begin_nibble + 1) m in
      let whole : nibbles v ≡ x ∷ rest = ap (run (bytes_of v.buffer) v.begin_nibble) n_is in
      let small = rw whole at (nibbles-IsNibble v h) in
      let len = length-run (bytes_of v.buffer) (v.begin_nibble + 1) m in
      let (a, b) = odd_prefix terminating x small.0 in
      (
        _,
        odd_run res v terminating m h e n_is,
        written_length res (first_byte terminating + 16 + x) rest (n / 2 + 1) room,
        spelled res (first_byte terminating + 16 + x) rest (n / 2 + 1) bytes small.1
              (omega (arith, flag_small terminating, small.0)) (omega (arith, len, odd))
              (omega (arith, len, odd))
            ∙ rw (e, a, b, whole),
      )
]
