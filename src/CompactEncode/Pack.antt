-- ===== src/CompactEncode/Pack.antt =====
-- The bytes of a compact encoding: its nibbles packed in pairs.
use nomad_mpt.Prelude.{
  ℕ, zero, suc, ◌+◌, ◌-◌, ◌*◌, ◌/◌, ◌%◌, ◌≤◌, ◌≡◌, refl, sym, ap, ◌∙◌, arith, Bool, Bool-cases, inl,
  inr, ◌==◌, ==_ne, some, List, [], ◌∷◌, ◌++◌, All, length, set, take, length-set,
}
use nomad_mpt.Nibbles.{NibblesView, nibble_size, get_nibble}
use nomad_mpt.Nibbles.Bytes.{IsByte}
use nomad_mpt.Nibbles.Sequence.{IsView, nibbles, run, run-drop, bytes_of}
use nomad_mpt.Nibbles.Concat.{write, length-write}
use nomad_mpt.CompactEncode.{compact_encode, first_byte}
use nomad_mpt.CompactEncode.Laws.{prefix, compact_encode_lem, even_run, odd_run}
use mathlib.Core.Path.{ap₂}

abbrev pub pack : List ℕ → List ℕ
pack [] = []
pack (h ∷ []) = []
pack (h ∷ l ∷ r) = (h * 16 + l) ∷ pack r

run-cons : (x : ℕ) (d : List ℕ) (n : ℕ) → run (x ∷ d) 2 n ≡ run d 0 n
run-cons x d n = sym (run-drop (x ∷ d) 2 n)

halves : (x : ℕ) (d : List ℕ) → get_nibble (x ∷ d) 0 * 16 + get_nibble (x ∷ d) 1 ≡ x
unfolding get_nibble
halves x d = omega arith

-- Bytes are their nibbles packed.
pack-run : (d : List ℕ) (m : ℕ) → length d ≡ m → pack (run d 0 (2 * m)) ≡ d
pack-run [] zero e = refl
pack-run [] (suc m) e = absurd (omega arith)
pack-run (x ∷ d) zero e = absurd (omega arith)
pack-run (x ∷ d) (suc m) e =
    let two : 2 * suc m ≡ suc (suc (2 * m)) = omega arith in
    rw two (ap₂ ◌∷◌ (halves x d) (ap pack (run-cons x d (2 * m)) ∙ pack-run d m (omega (arith, e))))

length-take : (m : ℕ) (d : List ℕ) → m ≤ length d → length (take m d) ≡ m
length-take zero d h = refl
length-take (suc m) [] h = absurd (omega arith)
length-take (suc m) (x ∷ d) h = ap suc (length-take m d (omega arith))

pub encoded_size :
    (res : List ℕ) (v : NibblesView) (terminating : Bool)
    → IsView v
    → nibble_size v / 2 + 1 ≤ length res
    → (bytes : List ℕ) × (compact_encode res v terminating ≡ some bytes)
      × (length bytes ≡ nibble_size v / 2 + 1)
encoded_size res v terminating h room = elim (Bool-cases (nibble_size v % 2 == 0)) [
  | inl e ↦ (_, even_run res v terminating h e, whole (first_byte terminating) (nibbles v))
  | inr e ↦
      let odd = ==_ne _ _ e in
      (
        _,
        odd_run res v terminating (nibble_size v - 1) h e (omega (arith, odd)),
        whole (first_byte terminating + 16 + get_nibble (bytes_of v.buffer) v.begin_nibble)
            (run (bytes_of v.buffer) (v.begin_nibble + 1) (nibble_size v - 1)),
      )
]
  where
    whole :
        (b : ℕ) (xs : List ℕ)
        → length (take (nibble_size v / 2 + 1) (write (set res 0 b) xs 2)) ≡ nibble_size v / 2 + 1
    whole b xs =
        length-take (nibble_size v / 2 + 1) (write (set res 0 b) xs 2)
          (omega (arith, length-write (set res 0 b) xs 2, length-set res 0 b, room))

-- `compact_encode` writes the prefix and the nibbles of the view packed in pairs.
pub compact_encode-pack :
    (res : List ℕ) (v : NibblesView) (terminating : Bool)
    → IsView v
    → All IsByte res
    → nibble_size v / 2 + 1 ≤ length res
    → compact_encode res v terminating
      ≡ some (pack (prefix terminating (nibble_size v % 2 == 0) ++ nibbles v))
compact_encode-pack res v terminating h bytes room =
    let (b, e, _, spelled) = compact_encode_lem res v terminating h bytes room in
    let (b', e', size) = encoded_size res v terminating h room in
    let same : b ≡ b' = cc in
    let whole = pack-run b (nibble_size v / 2 + 1) (ap length same ∙ size) in
    e ∙ ap some (sym whole ∙ ap pack spelled)
