-- ===== src/Rlp/Spans.antt =====
-- Writing and passing bytes of a span that has room for them.
use nomad_mpt.Prelude.{
  ℕ, zero, suc, ◌+◌, ◌-◌, ◌≤◌, ◌≡◌, refl, sym, ap, ◌∙◌, arith, leb, true, List, [], ◌∷◌, ◌++◌,
  length, take, drop, length-append, length-drop, append_assoc,
}
use nomad_mpt.Result.{ok, ◌>>=◌}
use nomad_mpt.Rlp.{Span, assign, store, subspan}
use native.Mathlib.Nat.{zero-add, suc-add}
use mathlib.Core.Path.{ap₂}

pub le→leb : (a b : ℕ) → a ≤ b → leb a b ≡ true
le→leb a b h = ground arith

module _ {ℓ} {A : Type ℓ} where
  pub take-append : (xs ys : List A) → take (length xs) (xs ++ ys) ≡ xs
  take-append [] ys = refl
  take-append (x ∷ xs) ys = ap (◌∷◌ x) (take-append xs ys)

  pub drop-append : (xs ys : List A) → drop (length xs) (xs ++ ys) ≡ ys
  drop-append [] ys = refl
  drop-append (x ∷ xs) ys = drop-append xs ys

  pub drop-drop : (m n : ℕ) (xs : List A) → drop n (drop m xs) ≡ drop (m + n) xs
  drop-drop zero n xs = rw zero-add
  drop-drop (suc m) zero [] = rw suc-add
  drop-drop (suc m) (suc n) [] = rw suc-add
  drop-drop (suc m) n (x ∷ xs) = rw suc-add (drop-drop m n xs)

  -- A prefix that was written over is gone behind it.
  pub drop-over :
      (xs ys : List A) (m : ℕ) → length xs ≤ m → drop m (xs ++ drop (length xs) ys) ≡ drop m ys
  drop-over xs ys m h =
      let split : m ≡ length xs + (m - length xs) = omega arith in
      rw split (
        sym (drop-drop (length xs) (m - length xs) (xs ++ drop (length xs) ys))
        ∙ ap (drop (m - length xs)) (drop-append xs (drop (length xs) ys))
        ∙ drop-drop (length xs) (m - length xs) ys)

-- The span behind `bytes` more bytes.
abbrev pub behind : Span → List ℕ → Span
behind d bytes = record { passed = d.passed ++ bytes; left = drop (length bytes) d.left }

pub store_lem :
    (bytes : List ℕ) (d : Span)
    → length bytes ≤ length d.left
    → store bytes d ≡ ok (record { passed = d.passed; left = bytes ++ drop (length bytes) d.left })
unfolding store
store_lem bytes d h = rw (le→leb _ _ h)

pub subspan_lem :
    (n : ℕ) (d : Span)
    → n ≤ length d.left
    → subspan n d ≡ ok (record { passed = d.passed ++ take n d.left; left = drop n d.left })
unfolding subspan
subspan_lem n d h = rw (le→leb _ _ h)

pub length-stored :
    (bytes xs : List ℕ)
    → length bytes ≤ length xs
    → length (bytes ++ drop (length bytes) xs) ≡ length xs
length-stored bytes xs h =
    omega (arith, length-append bytes (drop (length bytes) xs), length-drop (length bytes) xs)

-- Copied and passed.
pub store-subspan :
    (bytes : List ℕ) (d : Span)
    → length bytes ≤ length d.left
    → (store bytes d >>= subspan (length bytes)) ≡ ok (behind d bytes)
store-subspan bytes d h = rw (
  store_lem bytes d h,
  subspan_lem (length bytes)
      (record { passed = d.passed; left = bytes ++ drop (length bytes) d.left })
      (rw (length-stored bytes d.left h) h),
  take-append,
  drop-append,
)

pub assign-subspan :
    (b : ℕ) (d : Span) → 1 ≤ length d.left → (assign b d >>= subspan 1) ≡ ok (behind d (b ∷ []))
unfolding assign
assign-subspan b d h =
    rw (le→leb _ _ h)
      (subspan_lem 1 (record { passed = d.passed; left = b ∷ drop 1 d.left }) (omega arith))

pub behind-behind : (d : Span) (xs ys : List ℕ) → behind (behind d xs) ys ≡ behind d (xs ++ ys)
behind-behind d xs ys =
    let lefts : drop (length ys) (drop (length xs) d.left) ≡ drop (length (xs ++ ys)) d.left =
      drop-drop (length xs) (length ys) d.left ∙ rw (length-append xs ys) in
    ap₂ (λ (p q : List ℕ). record { passed = p; left = q }) (append_assoc d.passed xs ys) lefts
