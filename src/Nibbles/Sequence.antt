-- ===== src/Nibbles/Sequence.antt =====
-- A view stands for the sequence of its nibbles: the constructor, `get` and `substr`.
use nomad_mpt.Prelude.{ℕ, zero, suc, ◌+◌, ◌-◌, ◌*◌, ◌/◌, ◌%◌, ◌≤◌, ◌<◌, ◌≡◌, refl, ap, arith}
use nomad_mpt.Prelude.{List, [], ◌∷◌, Option, none, some, All, All-drop, length-drop}
use nomad_mpt.Prelude.{==_self, false, ◌^◌, ◌∙◌, take_all}
use nomad_mpt.Prelude.{lt→ltb, ◌==◌, take, drop, length, get_or}
use nomad_mpt.Nibbles.{NibblesView, empty_view, make_view, nibble_size, get, substr}
use nomad_mpt.Nibbles.{get_nibble}
use native.Mathlib.Nat.{add-zero, add_assoc, zero-add, suc-add}
use native.Mathlib.Decide.{ℕ_discrete}
use mathlib.Core.Path.{ap₂}
use mathlib.Core.Option
use nomad_mpt.Nibbles.Bytes.{IsByte, IsNibble, get_nibble-drop, get_nibble-IsNibble}

-- `n` nibbles of a buffer from index `i` on.
abbrev pub run : List ℕ → ℕ → ℕ → List ℕ
run d i zero = []
run d i (suc n) = get_nibble d i ∷ run d (i + 1) n

abbrev pub bytes_of : Option (List ℕ) → List ℕ
bytes_of none = []
bytes_of (some d) = d

-- The sequence that a view stands for.
abbrev pub nibbles : NibblesView → List ℕ
nibbles v = run (bytes_of v.buffer) v.begin_nibble (nibble_size v)

-- The pointer is null exactly when there is no nibble, and the bytes reach to the last nibble.
abbrev Holds : Option (List ℕ) → ℕ → ℕ → Type 0
Holds none begin end = (begin ≡ 0) × (end ≡ 0)
Holds (some d) begin end = (begin < end) × (end ≤ 2 * length d) × All IsByte d

pub record IsView (v : NibblesView) : Type 0 where
  pub first : v.begin_nibble ≤ 1
  pub ordered : v.begin_nibble ≤ v.end_nibble
  pub bounded : v.end_nibble ≤ 255
  pub held : Holds v.buffer v.begin_nibble v.end_nibble

pub length-run : (d : List ℕ) (i n : ℕ) → length (run d i n) ≡ n
length-run d i zero = refl
length-run d i (suc n) = omega (arith, length-run d (i + 1) n)

pub get_or-run : (d : List ℕ) (i n k : ℕ) → k < n → get_or (run d i n) k 0 ≡ get_nibble d (i + k)
get_or-run d i zero k h = absurd (omega arith)
get_or-run d i (suc n) zero h = rw add-zero
get_or-run d i (suc n) (suc k) h =
    rw (get_or-run d (i + 1) n k (omega arith), add_assoc) (ap (get_nibble d) (omega arith))

pub run_cong :
    (d e : List ℕ) (i j n : ℕ)
    → ((k : ℕ) → k < n → get_nibble d (i + k) ≡ get_nibble e (j + k))
    → run d i n ≡ run e j n
run_cong d e i j zero h = refl
run_cong d e i j (suc n) h = ap₂ ◌∷◌ (rw (add-zero, add-zero) at (h 0 (omega arith))) (
    run_cong d e (i + 1) (j + 1) n (λ k l.
      let p : i + 1 + k ≡ i + suc k = omega arith in
      let q : j + 1 + k ≡ j + suc k = omega arith in rw (p, q) (h (suc k) (omega arith))))

pub run-drop : (d : List ℕ) (b n : ℕ) → run (drop (b / 2) d) (b % 2) n ≡ run d b n
run-drop d b n = run_cong (drop (b / 2) d) d (b % 2) b n (λ k h. get_nibble-drop d b k)

pub drop-run : (d : List ℕ) (i k n : ℕ) → drop k (run d i (k + n)) ≡ run d (i + k) n
drop-run d i zero n = rw (zero-add, add-zero)
drop-run d i (suc k) n =
    let p : i + suc k ≡ i + 1 + k = omega arith in rw (suc-add, p) (drop-run d (i + 1) k n)

pub take-run : (d : List ℕ) (i k n : ℕ) → take k (run d i (k + n)) ≡ run d i k
take-run d i zero n = refl
take-run d i (suc k) n = rw suc-add (ap (◌∷◌ (get_nibble d i)) (take-run d (i + 1) k n))

nibble_size_lem : (v : NibblesView) → IsView v → nibble_size v ≡ v.end_nibble - v.begin_nibble
unfolding nibble_size
nibble_size_lem v h = omega arith

make_view_same :
    (begin end : ℕ) (p : Option (List ℕ)) → begin ≡ end → make_view begin end p ≡ empty_view
unfolding make_view
make_view_same begin end p e = rw (e, ==_self end)

make_view-some :
    (begin end : ℕ) (d : List ℕ)
    → begin < end
    → end ≤ 255
    → make_view begin end (some d) ≡ record {
      buffer = some (drop (begin / 2) d);
      begin_nibble = begin % 2;
      end_nibble = end - begin + begin % 2;
    }
unfolding make_view
make_view-some begin end d lt small =
    let e : (begin == end) ≡ false = ground arith in
    let q : ((end + 2 ^ 32 - begin) % 2 ^ 32 + begin % 2) % 256 ≡ end - begin + begin % 2 =
      omega arith in
    rw (e, q)

-- A view on the nibbles `begin` to `end` of a buffer is well formed and stands for them.
pub nibbles-make_view :
    (begin end : ℕ) (d : List ℕ)
    → begin ≤ end
    → end ≤ 255
    → end ≤ 2 * length d
    → All IsByte d
    → IsView (make_view begin end (some d))
      × (nibbles (make_view begin end (some d)) ≡ run d begin (end - begin))
nibbles-make_view begin end d le small fits b = elim (ℕ_discrete begin end) [
  | yes e ↦
      let z : end - begin ≡ 0 = omega arith in
      rw (make_view_same begin end (some d) e, z)
        (unfold nibble_size in
          (
            record {
              first = omega arith;
              ordered = omega arith;
              bounded = omega arith;
              held = (refl, refl);
            },
            refl,
          ))
  | no ne ↦
      let lt : begin < end = omega arith in
      let sz : (end - begin + begin % 2 + 256 - begin % 2) % 256 ≡ end - begin = omega arith in
      rw (make_view-some begin end d lt small) (
        unfold nibble_size in
        (
          record {
            first = omega arith;
            ordered = omega arith;
            bounded = omega arith;
            held = (
              omega arith,
              omega (arith, length-drop (begin / 2) d),
              All-drop IsByte (begin / 2) d b,
            );
          },
          rw (sz) (run-drop d begin (end - begin)),
        ))
]

map-bytes_of :
    {A : Type 0} (f : List ℕ → A) (p : Option (List ℕ)) (b e : ℕ)
    → Holds p b e
    → b < e
    → Option.map f p ≡ some (f (bytes_of p))
map-bytes_of f none b e h lt = absurd (omega arith)
map-bytes_of f (some d) b e h lt = refl

-- `get` reads the sequence, and its assertion holds below `nibble_size`.
pub get-nibbles :
    (v : NibblesView) (i : ℕ)
    → IsView v
    → i < nibble_size v
    → get v i ≡ some (get_or (nibbles v) i 0)
unfolding get
get-nibbles v i h lt =
    rw (lt→ltb _ _ lt, get_or-run (bytes_of v.buffer) v.begin_nibble (nibble_size v) i lt)
      (map-bytes_of (λ d. get_nibble d (v.begin_nibble + i)) v.buffer v.begin_nibble v.end_nibble
        h.held (omega (arith, nibble_size_lem v h)))

pub get-nibbles_beyond : (v : NibblesView) (i : ℕ) → nibble_size v ≤ i → get v i ≡ none
unfolding get
get-nibbles_beyond v i h = ground arith

substr_buffer :
    (p : Option (List ℕ)) (b e pos count : ℕ)
    → b ≤ 1
    → b ≤ e
    → e ≤ 255
    → Holds p b e
    → pos + count ≤ e - b
    → IsView (make_view (b + pos) (b + pos + count) p)
      × (nibbles (make_view (b + pos) (b + pos + count) p)
          ≡ take count (drop pos (run (bytes_of p) b (e - b))))
substr_buffer none b e pos count h1 h2 h3 (hb, he) fits =
    let z : count ≡ 0 = omega arith in
    rw (make_view_same (b + pos) (b + pos + count) none (omega arith), z)
      (unfold nibble_size in
        (
          record {
            first = omega arith;
            ordered = omega arith;
            bounded = omega arith;
            held = (refl, refl);
          },
          refl,
        ))
substr_buffer (some d) b e pos count h1 h2 h3 (lt, fits, bytes) le =
    let ok =
      nibbles-make_view (b + pos) (b + pos + count) d (omega arith) (omega arith) (omega arith)
        bytes in
    let rest : ℕ = e - b - pos - count in
    let cut : e - b ≡ pos + (count + rest) = omega arith in
    let n : b + pos + count - (b + pos) ≡ count = omega arith in
    (ok.0, rw (cut, drop-run, take-run) (rw n at (ok.1)))

-- `substr(pos, count)` inside the view is the part of the sequence.
pub nibbles-substr :
    (v : NibblesView) (pos count : ℕ)
    → IsView v
    → pos + count ≤ nibble_size v
    → IsView (substr v pos (some count))
      × (nibbles (substr v pos (some count)) ≡ take count (drop pos (nibbles v)))
unfolding substr
nibbles-substr v pos count h fits =
    let sz = nibble_size_lem v h in
    rw (sz) (
      substr_buffer v.buffer v.begin_nibble v.end_nibble pos count h.first h.ordered h.bounded
        h.held (omega (arith, sz)))

-- `substr(pos)` runs to the end.
pub nibbles-substr_npos :
    (v : NibblesView) (pos : ℕ)
    → IsView v
    → pos ≤ nibble_size v
    → IsView (substr v pos none) × (nibbles (substr v pos none) ≡ drop pos (nibbles v))
unfolding substr
nibbles-substr_npos v pos h fits =
    let sz = nibble_size_lem v h in
    let same_end : v.begin_nibble + pos + (nibble_size v - pos) ≡ v.end_nibble =
      omega (arith, sz) in
    let (ok, eq) = nibbles-substr v pos (nibble_size v - pos) h (omega arith) in
    let n : length (drop pos (nibbles v)) ≤ nibble_size v - pos = omega (
      arith,
      length-drop pos (nibbles v),
      length-run (bytes_of v.buffer) v.begin_nibble (nibble_size v),
    ) in
    (rw same_end at ok, (rw same_end at eq) ∙ take_all _ _ n)

Holds-reaches :
    (p : Option (List ℕ)) (b e i : ℕ) → Holds p b e → b + i < e → b + i < 2 * length (bytes_of p)
Holds-reaches none b e i h lt = absurd (omega arith)
Holds-reaches (some d) b e i h lt = omega (arith, h.1)

-- The bytes reach to each nibble of the view.
pub view_reaches :
    (v : NibblesView) (i : ℕ)
    → IsView v
    → i < nibble_size v
    → v.begin_nibble + i < 2 * length (bytes_of v.buffer)
view_reaches v i h lt =
    Holds-reaches v.buffer v.begin_nibble v.end_nibble i h.held (omega (arith, nibble_size_lem v h))

-- `get` in terms of the bytes.
pub get_at :
    (v : NibblesView) (i : ℕ)
    → IsView v
    → i < nibble_size v
    → get v i ≡ some (get_nibble (bytes_of v.buffer) (v.begin_nibble + i))
get_at v i h lt =
    get-nibbles v i h lt
    ∙ ap some (get_or-run (bytes_of v.buffer) v.begin_nibble (nibble_size v) i lt)

bytes_of-IsByte : (p : Option (List ℕ)) (b e : ℕ) → Holds p b e → All IsByte (bytes_of p)
bytes_of-IsByte none b e h = tt
bytes_of-IsByte (some d) b e h = h.2

run-IsNibble : (d : List ℕ) (i n : ℕ) → All IsByte d → All IsNibble (run d i n)
run-IsNibble d i zero h = tt
run-IsNibble d i (suc n) h = (get_nibble-IsNibble d i h, run-IsNibble d (i + 1) n h)

pub nibbles-IsNibble : (v : NibblesView) → IsView v → All IsNibble (nibbles v)
nibbles-IsNibble v h =
    run-IsNibble (bytes_of v.buffer) v.begin_nibble (nibble_size v)
      (bytes_of-IsByte v.buffer v.begin_nibble v.end_nibble h.held)
