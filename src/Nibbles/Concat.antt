-- ===== src/Nibbles/Concat.antt =====
-- `concat` and `Nibbles::substr` build an owned sequence.
use nomad_mpt.Prelude.{ℕ, zero, suc, ◌+◌, ◌*◌, ◌/◌, ◌%◌, ◌≤◌, ◌<◌, ◌≡◌, refl, ◌∙◌, arith}
use nomad_mpt.Prelude.{List, [], ◌∷◌, ◌++◌, some, All, length, length-append, replicate}
use nomad_mpt.Prelude.{take, drop, length-replicate, All-append, append-nil}
use nomad_mpt.Nibbles.{
  NibblesView, make_view, nibble_size, data_size, set_nibble, get_nibble, get, substr,
}
use nomad_mpt.Nibbles.{
  Nibbles, new_nibbles, set_at, view_of_nibbles, Piece, nibble, view, piece_size,
}
use nomad_mpt.Prelude.{Option, ap}
use nomad_mpt.Nibbles.{left_aligned}
use nomad_mpt.Nibbles.{num_nibbles, copy_loop, write_pieces, concat, substr_copy}
use nomad_mpt.Nibbles.Bytes.{IsByte, IsNibble, length-set_nibble, get_nibble-set_nibble_self}
use nomad_mpt.Nibbles.Bytes.{get_nibble-set_nibble_ne, set_nibble-IsByte}
use nomad_mpt.Nibbles.Sequence.{
  IsView, nibbles, run, bytes_of, get_at, length-run, nibbles-make_view,
}
use nomad_mpt.Nibbles.Sequence.{nibbles-substr, nibbles-IsNibble}
use native.Mathlib.Nat.{zero-add, add-zero, add_assoc, sub-zero}
use mathlib.Core.Path.{ap₂}
use mathlib.Core.Option
use nomad_mpt.Prelude.{◌==◌, Bool-cases, inl, inr}

-- Writing a sequence from index `i` on.
abbrev pub write : List ℕ → List ℕ → ℕ → List ℕ
write d [] i = d
write d (x ∷ xs) i = write (set_nibble d i x) xs (i + 1)

pub length-write : (d xs : List ℕ) (i : ℕ) → length (write d xs i) ≡ length d
length-write d [] i = refl
length-write d (x ∷ xs) i = length-write (set_nibble d i x) xs (i + 1) ∙ length-set_nibble d i x

pub write-IsByte : (d xs : List ℕ) (i : ℕ) → All IsByte d → All IsByte (write d xs i)
write-IsByte d [] i h = h
write-IsByte d (x ∷ xs) i h = write-IsByte (set_nibble d i x) xs (i + 1) (set_nibble-IsByte d i x h)

pub get_nibble-write_below :
    (d xs : List ℕ) (i j : ℕ)
    → All IsByte d
    → All IsNibble xs
    → i + length xs ≤ 2 * length d
    → j < i
    → get_nibble (write d xs i) j ≡ get_nibble d j
get_nibble-write_below d [] i j b v fits lt = refl
get_nibble-write_below d (x ∷ xs) i j b v fits lt =
    get_nibble-write_below (set_nibble d i x) xs (i + 1) j (set_nibble-IsByte d i x b) v.1
      (omega (arith, length-set_nibble d i x)) (omega arith)
    ∙ get_nibble-set_nibble_ne d i j x b (omega arith) v.0 (λ e. omega arith)

-- What was written reads back.
pub run-write :
    (d xs : List ℕ) (i : ℕ)
    → All IsByte d
    → All IsNibble xs
    → i + length xs ≤ 2 * length d
    → run (write d xs i) i (length xs) ≡ xs
run-write d [] i b v fits = refl
run-write d (x ∷ xs) i b v fits =
    let fits' : i + 1 + length xs ≤ 2 * length (set_nibble d i x) =
      omega (arith, length-set_nibble d i x) in
    let b' = set_nibble-IsByte d i x b in
    ap₂ ◌∷◌
      (get_nibble-write_below (set_nibble d i x) xs (i + 1) i b' v.1 fits' (omega arith)
        ∙ get_nibble-set_nibble_self d i x (omega arith) v.0)
      (run-write (set_nibble d i x) xs (i + 1) b' v.1 fits')

write-append :
    (d xs ys : List ℕ) (i : ℕ) → write d (xs ++ ys) i ≡ write (write d xs i) ys (i + length xs)
write-append d [] ys i = rw add-zero
write-append d (x ∷ xs) ys i =
    let e : i + 1 + length xs ≡ i + suc (length xs) = omega arith in
    rw (← e) (write-append (set_nibble d i x) xs ys (i + 1))

-- The arguments of `concat` that its assertions accept, and the sequence that they spell.
abbrev pub IsPiece : Piece → Type 0
IsPiece (nibble x) = IsNibble x
IsPiece (view v) = IsView v

abbrev pub spell : List Piece → List ℕ
spell [] = []
spell (nibble x ∷ ps) = x ∷ spell ps
spell (view v ∷ ps) = nibbles v ++ spell ps

-- The owner under construction: `size` nibbles over the bytes `d`.
abbrev owner : ℕ → List ℕ → Nibbles
owner size d = record { buffer = some d; begin_nibble = 0; end_nibble = size }

set_at-owner :
    (size i v : ℕ) (d : List ℕ) → set_at (owner size d) i v ≡ owner size (set_nibble d i v)
unfolding set_at
set_at-owner size i v d = rw zero-add

copy_loop_step :
    (v : NibblesView) (index k i x : ℕ) (ret : Nibbles)
    → get v i ≡ some x
    → copy_loop v index (suc k) i ret ≡ copy_loop v index k (i + 1) (set_at ret (index + i) x)
unfolding copy_loop
copy_loop_step v index k i x ret e = rw (e, copy_loop)

copy_loop-write :
    (v : NibblesView) (size index k i : ℕ) (d : List ℕ)
    → IsView v
    → i + k ≤ nibble_size v
    → copy_loop v index k i (owner size d)
      ≡ some (owner size (write d (run (bytes_of v.buffer) (v.begin_nibble + i) k) (index + i)))
copy_loop-write v size index zero i d h le = unfold copy_loop in refl
copy_loop-write v size index (suc k) i d h le =
    let x = get_nibble (bytes_of v.buffer) (v.begin_nibble + i) in
    copy_loop_step v index k i x (owner size d) (get_at v i h (omega arith))
    ∙ rw (set_at-owner) (
        rw (add_assoc, add_assoc)
          (copy_loop-write v size index k (i + 1) (set_nibble d (index + i) x) h (omega arith)))

write_pieces-spell :
    (ps : List Piece) (size index : ℕ) (d : List ℕ)
    → All IsPiece ps
    → write_pieces ps index (owner size d) ≡ some (owner size (write d (spell ps) index))
unfolding write_pieces set_at
write_pieces-spell [] size index d h = refl
write_pieces-spell (nibble x ∷ ps) size index d h =
    rw (zero-add) (write_pieces-spell ps size (index + 1) (set_nibble d index x) h.1)
write_pieces-spell (view v ∷ ps) size index d h =
    rw (copy_loop-write v size index (nibble_size v) 0 d h.0 (omega arith), write_pieces)
      (rw (add-zero, add-zero, write-append, length-run)
        (write_pieces-spell ps size (index + nibble_size v) (write d (nibbles v) index) h.1))

length-spell : (ps : List Piece) → length (spell ps) ≡ num_nibbles ps
unfolding num_nibbles piece_size
length-spell [] = refl
length-spell (nibble x ∷ ps) = omega (arith, length-spell ps)
length-spell (view v ∷ ps) = omega (
  arith,
  length-spell ps,
  length-append (nibbles v) (spell ps),
  length-run (bytes_of v.buffer) v.begin_nibble (nibble_size v),
)

spell-IsNibble : (ps : List Piece) → All IsPiece ps → All IsNibble (spell ps)
spell-IsNibble [] h = tt
spell-IsNibble (nibble x ∷ ps) h = (h.0, spell-IsNibble ps h.1)
spell-IsNibble (view v ∷ ps) h =
    All-append IsNibble (nibbles v) (spell ps) (nibbles-IsNibble v h.0) (spell-IsNibble ps h.1)

pub replicate-IsByte : (n : ℕ) → All IsByte (replicate n 0)
replicate-IsByte zero = tt
replicate-IsByte (suc n) = (omega arith, replicate-IsByte n)

-- `concat` of at most 255 nibbles succeeds, and its result stands for the arguments joined.
pub concat-spell :
    (ps : List Piece)
    → All IsPiece ps
    → num_nibbles ps ≤ 255
    → (r : Nibbles) × (concat ps ≡ some r)
      × IsView (view_of_nibbles r)
      × (nibbles (view_of_nibbles r) ≡ spell ps)
unfolding concat new_nibbles view_of_nibbles
concat-spell ps h small =
    let n = num_nibbles ps in
    let zeros : List ℕ = replicate ((n + 1) / 2) 0 in
    let d = write zeros (spell ps) 0 in
    let size : n % 256 ≡ n = omega arith in
    let len = length-spell ps in
    let room : n ≤ 2 * length zeros = omega (arith, length-replicate {A = ℕ} ((n + 1) / 2) 0) in
    let zero_bytes : All IsByte zeros = replicate-IsByte ((n + 1) / 2) in
    let (ok, eq) =
      nibbles-make_view 0 n d (omega arith) small
        (omega (arith, room, length-write zeros (spell ps) 0))
        (write-IsByte zeros (spell ps) 0 zero_bytes) in
    (
      owner n d,
      rw size (write_pieces-spell ps n 0 zeros h),
      ok,
      eq
          ∙ rw sub-zero (
              rw len at (
                run-write zeros (spell ps) 0 zero_bytes (spell-IsNibble ps h)
                  (omega (arith, len, room)))),
    )

owner_bytes : (n : ℕ) (d : List ℕ) → n ≤ 255 → data_size (view_of_nibbles (owner n d)) ≤ (n + 1) / 2
unfolding data_size view_of_nibbles make_view
owner_bytes n d le = elim (Bool-cases (0 == n)) [
  | inl e ↦ rw e (omega arith)
  | inr e ↦ rw (e, Option.map) (ground arith)
]

concat-begin :
    (ps : List Piece) (r : Nibbles)
    → All IsPiece ps
    → num_nibbles ps ≤ 255
    → concat ps ≡ some r
    → r.begin_nibble ≡ 0
unfolding concat new_nibbles
concat-begin ps r h small e =
    let n = num_nibbles ps in
    let d = write (replicate ((n + 1) / 2) 0) (spell ps) 0 in
    let size : n % 256 ≡ n = omega arith in
    let made : concat ps ≡ some (owner n d) =
      rw size (write_pieces-spell ps n 0 (replicate ((n + 1) / 2) 0) h) in
    let same : owner n d ≡ r = cc in rw (← same) refl

-- The bytes that the result of `concat` takes.
pub data_size-concat :
    (ps : List Piece) (r : Nibbles)
    → All IsPiece ps
    → num_nibbles ps ≤ 255
    → concat ps ≡ some r
    → data_size (view_of_nibbles r) ≤ (num_nibbles ps + 1) / 2
unfolding concat new_nibbles
data_size-concat ps r h small e =
    let n = num_nibbles ps in
    let d = write (replicate ((n + 1) / 2) 0) (spell ps) 0 in
    let size : n % 256 ≡ n = omega arith in
    let made : concat ps ≡ some (owner n d) =
      rw size (write_pieces-spell ps n 0 (replicate ((n + 1) / 2) 0) h) in
    let same : owner n d ≡ r = cc in rw (← same) (owner_bytes n d small)

size_small : (v : NibblesView) → num_nibbles (view v ∷ []) ≤ 255
unfolding num_nibbles piece_size nibble_size
size_small v = omega arith

substr_copy-some :
    (n : Nibbles) (pos : ℕ) (count : Option ℕ) (r : Nibbles)
    → concat (view (substr (view_of_nibbles n) pos count) ∷ []) ≡ some r
    → r.begin_nibble ≡ 0
    → substr_copy n pos count ≡ some r
unfolding substr_copy
substr_copy-some n pos count r done left = ap left_aligned done ∙ rw left refl

-- `Nibbles::substr` copies the part of the sequence.
pub substr_copy_lem :
    (n : Nibbles) (pos count : ℕ)
    → IsView (view_of_nibbles n)
    → pos + count ≤ nibble_size (view_of_nibbles n)
    → (r : Nibbles) × (substr_copy n pos (some count) ≡ some r)
      × (nibbles (view_of_nibbles r) ≡ take count (drop pos (nibbles (view_of_nibbles n))))
unfolding substr_copy
substr_copy_lem n pos count h fits =
    let v = substr (view_of_nibbles n) pos (some count) in
    let (ok, eq) = nibbles-substr (view_of_nibbles n) pos count h fits in
    let (r, done, _, spelled) = concat-spell (view v ∷ []) (ok, tt) (size_small v) in
    (
      r,
      substr_copy-some n pos (some count) r done
          (concat-begin (view v ∷ []) r (ok, tt) (size_small v) done),
      spelled ∙ append-nil (nibbles v) ∙ eq,
    )
