-- ===== src/Nibbles/Halves.antt =====
-- What `get` reads, by the two halves of each byte of the buffer.
use nomad_mpt.Prelude.{
  ℕ, zero, suc, ◌+◌, ◌*◌, ◌/◌, ◌%◌, ◌≤◌, ◌<◌, ◌≡◌, refl, ◌∙◌, arith, List, [], ◌∷◌, Option, none,
  some, ltb, ltb→lt, Bool-cases, inl, inr, take, drop, length,
}
use nomad_mpt.Nibbles.{NibblesView, nibble_size, get, get_nibble}
use nomad_mpt.Nibbles.Sequence.{IsView, bytes_of, get_at, get-nibbles_beyond, view_reaches}
use native.Mathlib.Nat.{suc-add, zero-add}

-- The upper half of each byte and then the lower.
abbrev pub halves : List ℕ → List ℕ
halves [] = []
halves (b ∷ d) = (b / 16) ∷ (b % 16) ∷ halves d

module _ {ℓ} {A : Type ℓ} where
  abbrev pub get_elem? : List A → ℕ → Option A
  get_elem? [] i = none
  get_elem? (x ∷ xs) zero = some x
  get_elem? (x ∷ xs) (suc i) = get_elem? xs i

  get_elem?-take : (xs : List A) (n i : ℕ) → i < n → get_elem? (take n xs) i ≡ get_elem? xs i
  get_elem?-take xs zero i h = absurd (omega arith)
  get_elem?-take [] (suc n) i h = refl
  get_elem?-take (x ∷ xs) (suc n) zero h = refl
  get_elem?-take (x ∷ xs) (suc n) (suc i) h = get_elem?-take xs n i (omega arith)

  get_elem?-take_beyond : (xs : List A) (n i : ℕ) → n ≤ i → get_elem? (take n xs) i ≡ none
  get_elem?-take_beyond xs zero i h = refl
  get_elem?-take_beyond [] (suc n) i h = refl
  get_elem?-take_beyond (x ∷ xs) (suc n) zero h = absurd (omega arith)
  get_elem?-take_beyond (x ∷ xs) (suc n) (suc i) h = get_elem?-take_beyond xs n i (omega arith)

  get_elem?-drop : (xs : List A) (n i : ℕ) → get_elem? (drop n xs) i ≡ get_elem? xs (n + i)
  get_elem?-drop xs zero i = rw zero-add refl
  get_elem?-drop [] (suc n) i = refl
  get_elem?-drop (x ∷ xs) (suc n) i = rw suc-add (get_elem?-drop xs n i)

get_elem?-halves :
    (d : List ℕ) (j : ℕ) → j < 2 * length d → get_elem? (halves d) j ≡ some (get_nibble d j)
unfolding get_nibble
get_elem?-halves [] j h = absurd (omega arith)
get_elem?-halves (b ∷ d) zero h = refl
get_elem?-halves (b ∷ d) (suc zero) h = refl
get_elem?-halves (b ∷ d) (suc (suc j)) h =
    let next : suc (suc j) / 2 ≡ suc (j / 2) = omega arith in
    let parity : suc (suc j) % 2 ≡ j % 2 = omega arith in
    get_elem?-halves d j (omega arith) ∙ rw (next, parity) refl

-- `get` on a well-formed view: from the halves of the bytes of its buffer, the upper one first, it reads the
-- one at the index behind the view's first; from the view's size on its assertion fails.
pub get_lem :
    (v : NibblesView) (i : ℕ)
    → IsView v
    → get v i
      ≡ get_elem? (take (nibble_size v) (drop v.begin_nibble (halves (bytes_of v.buffer)))) i
get_lem v i h =
    let read = drop v.begin_nibble (halves (bytes_of v.buffer)) in
    elim (Bool-cases (ltb i (nibble_size v))) [
      | inr e ↦
          get-nibbles_beyond v i (ground (arith, e))
          ∙ rw (get_elem?-take_beyond read (nibble_size v) i (ground (arith, e))) refl
      | inl e ↦
          let lt = ltb→lt _ _ e in
          get_at v i h lt
          ∙ rw
              (
                get_elem?-take read (nibble_size v) i lt,
                get_elem?-drop (halves (bytes_of v.buffer)) v.begin_nibble i,
                get_elem?-halves (bytes_of v.buffer) (v.begin_nibble + i) (view_reaches v i h lt),
              )
              refl
    ]
