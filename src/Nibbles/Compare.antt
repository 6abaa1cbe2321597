-- ===== src/Nibbles/Compare.antt =====
-- The comparisons of views decide the comparisons of the sequences that they stand for.
use nomad_mpt.Prelude.{ℕ, zero, suc, ◌+◌, ◌≤◌, ◌≡◌, ◌↔◌, refl, sym, ◌∙◌, arith}
use nomad_mpt.Prelude.{List, [], ◌∷◌, some, true, length, take, compare, Ordering}
use nomad_mpt.Prelude.{◌==◌, ltb, ltb→lt, ==→eq, Bool-cases, inl, inr}
use nomad_mpt.Prelude.{◌⊎◌, ==_ne, ap, ◌-◌, length-take-le}
use native.Mathlib.Nat.{add_assoc, suc-add, zero-add, add-zero}
use nomad_mpt.Nibbles.{NibblesView, nibble_size, substr, eq_loop, equal, starts_with}
use nomad_mpt.Nibbles.{compare_loop, three_way}
use nomad_mpt.Nibbles.Sequence.{IsView, nibbles, run, bytes_of, get_at, length-run, nibbles-substr}

-- The lexicographic order, a proper prefix first.
abbrev pub lex : List ℕ → List ℕ → Ordering
lex [] [] = Ordering.eq
lex [] (y ∷ ys) = Ordering.lt
lex (x ∷ xs) [] = Ordering.gt
lex (x ∷ xs) (y ∷ ys) = elim (compare x y) [
  | Ordering.eq ↦ lex xs ys
  | Ordering.lt ↦ Ordering.lt
  | Ordering.gt ↦ Ordering.gt
]

-- Where one sequence has ended the longer one is the greater.
lex_tail :
    (d e : List ℕ) (i j c m n : ℕ)
    → (m ≡ 0) ⊎ (n ≡ 0)
    → compare (c + m) (c + n) ≡ lex (run d i m) (run e j n)
lex_tail d e i j c zero zero z = ground arith
lex_tail d e i j c zero (suc n) z = ground arith
lex_tail d e i j c (suc m) zero z = ground arith
lex_tail d e i j c (suc m) (suc n) z = absurd (ground arith)

module _ (a b : NibblesView) (ha : IsView a) (hb : IsView b) where
  abbrev left : ℕ → ℕ → List ℕ
  left i k = run (bytes_of a.buffer) (a.begin_nibble + i) k

  abbrev right : ℕ → ℕ → List ℕ
  right i k = run (bytes_of b.buffer) (b.begin_nibble + i) k

  eq_loop_iff :
      (k i : ℕ)
      → i + k ≤ nibble_size a
      → i + k ≤ nibble_size b
      → (eq_loop a b k i ≡ true) ↔ (left i k ≡ right i k)
  unfolding eq_loop
  eq_loop_iff zero i p q = (λ _. refl, λ _. refl)
  eq_loop_iff (suc k) i p q =
      let ih = eq_loop_iff k (i + 1) (omega arith) (omega arith) in
      rw (get_at a i ha (omega arith), get_at b i hb (omega arith), add_assoc)
        (rw add_assoc ((λ e. ground (arith, ih.0), λ e. ground (arith, ih.1))))

  -- `operator==` holds exactly when the two views stand for one sequence.
  pub equal_iff : (equal a b ≡ true) ↔ (nibbles a ≡ nibbles b)
  unfolding equal
  equal_iff = elim (Bool-cases (nibble_size a == nibble_size b)) [
    | inl e ↦
        let sz = ==→eq (nibble_size a) (nibble_size b) e in
        rw (e, sz)
          (rw (add-zero, add-zero) at
            (eq_loop_iff (nibble_size b) 0 (omega (arith, sz)) (omega arith)))
    | inr e ↦ rw e (
      (λ x. cc),
      λ x. absurd (
          ==_ne _ _ e (
            sym (length-run (bytes_of a.buffer) a.begin_nibble (nibble_size a))
            ∙ ap length x
            ∙ length-run (bytes_of b.buffer) b.begin_nibble (nibble_size b))),
    )
  ]

  compare_loop-lex :
      (k i m n : ℕ)
      → i + (k + m) ≡ nibble_size a
      → i + (k + n) ≡ nibble_size b
      → (m ≡ 0) ⊎ (n ≡ 0)
      → compare_loop a b k i ≡ lex (left i (k + m)) (right i (k + n))
  unfolding compare_loop
  compare_loop-lex zero i m n p q z =
      rw (← p, ← q)
        (simp zero-add (
          lex_tail (bytes_of a.buffer) (bytes_of b.buffer) (a.begin_nibble + i) (b.begin_nibble + i)
            i m n z))
  compare_loop-lex (suc k) i m n p q z =
      simp (suc-add, get_at a i ha (omega arith), get_at b i hb (omega arith), add_assoc)
        (ground (arith, compare_loop-lex k (i + 1) m n (omega arith) (omega arith) z))

  -- `operator<=>` is the lexicographic order of the two sequences.
  pub three_way-lex : three_way a b ≡ lex (nibbles a) (nibbles b)
  unfolding three_way
  three_way-lex = elim (Bool-cases (ltb (nibble_size b) (nibble_size a))) [
    | inl e ↦
        let m = nibble_size a - nibble_size b in
        let lt = ltb→lt (nibble_size b) (nibble_size a) e in
        let p : nibble_size b + m ≡ nibble_size a = omega (arith, lt) in
        rw e (
          simp (p, add-zero) at
            (compare_loop-lex (nibble_size b) 0 m 0 (omega (arith, p)) (omega arith) (inr refl)))
    | inr e ↦
        let n = nibble_size b - nibble_size a in
        let p : nibble_size a + n ≡ nibble_size b = ground arith in
        rw e (
          simp (p, add-zero) at
            (compare_loop-lex (nibble_size a) 0 0 n (omega arith) (omega (arith, p)) (inl refl)))
  ]

-- `starts_with` holds exactly when the other sequence is a prefix.
pub starts_with_iff :
    (a b : NibblesView)
    → IsView a
    → IsView b
    → (starts_with a b ≡ true) ↔ (take (nibble_size b) (nibbles a) ≡ nibbles b)
unfolding starts_with
starts_with_iff a b ha hb = elim (Bool-cases (ltb (nibble_size a) (nibble_size b))) [
  | inl e ↦ rw e (
    (λ x. cc),
    λ x. absurd (
        omega (
          arith,
          ltb→lt _ _ e,
          ap length x,
          length-take-le (nibble_size b) (nibbles a),
          length-run (bytes_of a.buffer) a.begin_nibble (nibble_size a),
          length-run (bytes_of b.buffer) b.begin_nibble (nibble_size b),
        )),
  )
  | inr e ↦
      let (ok, eq) = nibbles-substr a 0 (nibble_size b) ha (ground arith) in
      rw e (rw (← eq) (equal_iff (substr a 0 (some (nibble_size b))) b ok hb))
]
