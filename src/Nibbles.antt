-- ===== src/Nibbles.antt =====
-- depend/monad/category/core/nibble.h and mpt/nibbles_view.hpp: half-bytes inside byte buffers,
-- the non-owning view `NibblesView` and the owning `Nibbles`. A buffer is the list of the bytes
-- from the pointer on, and `none` is the null pointer.
pub mod Bytes
pub mod Sequence
pub mod Halves
pub mod Compare
pub mod Concat
pub mod Runs
use nomad_mpt.Prelude.{ℕ, zero, suc, ◌+◌, ◌-◌, ◌*◌, ◌/◌, ◌%◌, ◌^◌, compare, Ordering}
use nomad_mpt.Prelude.{ltb, ◌==◌, if◌then◌else◌, get_or, set, drop, take, replicate, length}
use nomad_mpt.Prelude.{Bool, true, false, Option, none, some, List, [], ◌∷◌}
use mathlib.Core.Option

-- `r >>= 4` and `r &= 0xF` on a byte.
unfoldable pub get_nibble : List ℕ → ℕ → ℕ
get_nibble d n = let r = get_or d (n / 2) 0 in if n % 2 == 0 then r / 16 else r % 16

-- The kept half and the new half have no bit in common, so `|=` is a sum.
unfoldable pub set_nibble : List ℕ → ℕ → ℕ → List ℕ
set_nibble d n v =
    let r = get_or d (n / 2) 0 in
    set d (n / 2) (if n % 2 == 0 then r % 16 + v % 16 * 16 else r % 256 / 16 * 16 + v % 16)

-- `size_type` is uint8_t.
pub record NibblesView : Type 0 where
  pub buffer : Option (List ℕ)
  pub begin_nibble : ℕ
  pub end_nibble : ℕ

abbrev pub empty_view : NibblesView
empty_view = record { buffer = none; begin_nibble = 0; end_nibble = 0 }

-- The fields once `data_` is computed.
abbrev view_at : Option (List ℕ) → ℕ → ℕ → NibblesView
view_at none begin end = empty_view
view_at (some d) begin end = record {
  buffer = some d;
  begin_nibble = begin % 2;
  end_nibble = ((end + 2 ^ 32 - begin) % 2 ^ 32 + begin % 2) % 256;
}

-- `NibblesView(begin_nibble, end_nibble, data)`
unfoldable pub make_view : ℕ → ℕ → Option (List ℕ) → NibblesView
make_view begin end data_ =
    view_at (if begin == end then none else Option.map (drop (begin / 2)) data_) begin end

-- `NibblesView(byte_string_view)`
pub view_of_bytes : List ℕ → NibblesView
view_of_bytes s = make_view 0 (2 * length s % 256) (some s)

pub empty : NibblesView → Bool
empty v = elim v.buffer [ none ↦ true | some d ↦ false ]

unfoldable pub nibble_size : NibblesView → ℕ
nibble_size v = (v.end_nibble + 256 - v.begin_nibble) % 256

unfoldable pub data_size : NibblesView → ℕ
data_size v = if v.begin_nibble == v.end_nibble then 0 else (v.end_nibble + 1) / 2

-- `none` is the failed assertion.
unfoldable pub get : NibblesView → ℕ → Option ℕ
get v i =
    if ltb i (nibble_size v)
    then Option.map (λ d. get_nibble d (v.begin_nibble + i)) v.buffer
    else none

-- `substr(pos, count)`; `none` is `npos`.
pub substr : NibblesView → ℕ → Option ℕ → NibblesView
substr v pos count =
    let begin = v.begin_nibble + pos in
    make_view begin (elim count [ none ↦ v.end_nibble | some c ↦ begin + c ]) v.buffer

-- The test of `operator==` at one index: the two nibbles read are the same.
abbrev pub same : Option ℕ → Option ℕ → Bool
same none y = false
same (some x) none = false
same (some x) (some y) = x == y

-- The loop of `operator==`, with the rounds that are left and the index.
eq_loop : NibblesView → NibblesView → ℕ → ℕ → Bool
eq_loop a b zero i = true
eq_loop a b (suc k) i =
    let rest = eq_loop a b k (i + 1) in if same (get a i) (get b i) then rest else false

-- `operator==`; two views of one object are equal by the loop as well.
pub equal : NibblesView → NibblesView → Bool
unfolding eq_loop
equal a b = if nibble_size a == nibble_size b then eq_loop a b (nibble_size a) 0 else false

pub starts_with : NibblesView → NibblesView → Bool
starts_with a b =
    if ltb (nibble_size a) (nibble_size b)
    then false
    else equal (substr a 0 (some (nibble_size b))) b

abbrev pub order : Option ℕ → Option ℕ → Ordering
order none y = Ordering.eq
order (some x) none = Ordering.eq
order (some x) (some y) = compare x y

-- The loop of `operator<=>`; at the end the sizes decide.
compare_loop : NibblesView → NibblesView → ℕ → ℕ → Ordering
compare_loop a b zero i = compare (nibble_size a) (nibble_size b)
compare_loop a b (suc k) i =
    let rest = compare_loop a b k (i + 1) in
    if same (get a i) (get b i) then rest else order (get a i) (get b i)

pub three_way : NibblesView → NibblesView → Ordering
unfolding compare_loop
three_way a b =
    let min_size = if ltb (nibble_size b) (nibble_size a) then nibble_size b else nibble_size a in
    compare_loop a b min_size 0

-- `Nibbles` owns its bytes.
pub record Nibbles : Type 0 where
  pub buffer : Option (List ℕ)
  pub begin_nibble : ℕ
  pub end_nibble : ℕ

-- `Nibbles(size_t end_nibble)`: the array is allocated at size 0 too.
pub new_nibbles : ℕ → Nibbles
new_nibbles end = record {
  buffer = some (replicate ((end + 1) / 2) 0);
  begin_nibble = 0;
  end_nibble = end % 256;
}

-- `NibblesView(Nibbles const &)`
unfoldable pub view_of_nibbles : Nibbles → NibblesView
view_of_nibbles n = make_view n.begin_nibble n.end_nibble n.buffer

-- `Nibbles(NibblesView)`: the bytes are copied if there is a nibble.
pub nibbles_of_view : NibblesView → Nibbles
nibbles_of_view v = record {
  buffer =
      if v.begin_nibble == v.end_nibble then none else Option.map (take (data_size v)) v.buffer;
  begin_nibble = v.begin_nibble;
  end_nibble = v.end_nibble;
}

-- `Nibbles::set`
pub set_at : Nibbles → ℕ → ℕ → Nibbles
set_at n i v = record n { buffer = Option.map (λ d. set_nibble d (n.begin_nibble + i) v) n.buffer }

-- An argument of `concat`.
pub data Piece : Type 0 where
  nibble : ℕ → Piece
  view : NibblesView → Piece

unfoldable pub piece_size : Piece → ℕ
piece_size (nibble v) = 1
piece_size (view v) = nibble_size v

unfoldable pub num_nibbles : List Piece → ℕ
num_nibbles [] = 0
num_nibbles (p ∷ ps) = piece_size p + num_nibbles ps

-- `ret.set(index + i, arg.get(i))`, with the rounds that are left; `none` is a failed assertion.
copy_loop : NibblesView → ℕ → ℕ → ℕ → Nibbles → Option Nibbles
copy_loop v index zero i ret = some ret
copy_loop v index (suc k) i ret = elim (get v i) [
  | none ↦ none
  | some x ↦ copy_loop v index k (i + 1) (set_at ret (index + i) x)
]

write_pieces : List Piece → ℕ → Nibbles → Option Nibbles
unfolding copy_loop
write_pieces [] index ret = some ret
write_pieces (nibble x ∷ ps) index ret = write_pieces ps (index + 1) (set_at ret index x)
write_pieces (view v ∷ ps) index ret = elim (copy_loop v index (nibble_size v) 0 ret) [
  | none ↦ none
  | some ret' ↦ write_pieces ps (index + nibble_size v) ret'
]

pub concat : List Piece → Option Nibbles
unfolding write_pieces
concat ps = write_pieces ps 0 (new_nibbles (num_nibbles ps))

-- The assertion of `Nibbles::substr`
abbrev pub left_aligned : Option Nibbles → Option Nibbles
left_aligned none = none
left_aligned (some ret) = if ret.begin_nibble == 0 then some ret else none

-- `Nibbles::substr`
pub substr_copy : Nibbles → ℕ → Option ℕ → Option Nibbles
substr_copy n pos count = left_aligned (concat (view (substr (view_of_nibbles n) pos count) ∷ []))
