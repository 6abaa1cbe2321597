-- ===== src/Lru/Lists.antt =====
-- Lists of indices in which none occurs twice.
use nomad_mpt.Prelude.{arith, ◌+◌}
use nomad_mpt.Prelude.{zero, ◌<◌}
use nomad_mpt.Prelude.{
  ℕ, suc, ◌≡◌, refl, sym, ap, ◌∙◌, ◌⊎◌, Bool-cases, inl, inr, some, List, [], ◌∷◌, length, All, In,
}
use nomad_mpt.Prelude.{◌==◌, ==→eq, ==_ne, ==_self}
use nomad_mpt.Lru.{upto, unlink, last}

abbrev pub Not : ℕ → List ℕ → Type 0
Not i is = All (λ j. j ≡ i → ⊥) is

abbrev pub Unique : List ℕ → Type 0
Unique [] = Unit
Unique (i ∷ is) = Not i is × Unique is

pub All-In : (P : ℕ → Type 0) (is : List ℕ) (i : ℕ) → All P is → In i is → P i
All-In P [] i h k = absurd k
All-In P (j ∷ is) i h (inl e) = rw e h.0
All-In P (j ∷ is) i h (inr k) = All-In P is i h.1 k

pub All-unlink :
    (P : ℕ → Type 0) (i : ℕ) (is : List ℕ) → All P is → All (λ j. P j × (j ≡ i → ⊥)) (unlink i is)
All-unlink P i [] h = tt
All-unlink P i (j ∷ is) h = elim (Bool-cases (j == i)) [
  | inl e ↦ rw e (All-unlink P i is h.1)
  | inr e ↦ rw e ((h.0, ==_ne j i e), All-unlink P i is h.1)
]

pub All-weaken : (P Q : ℕ → Type 0) → ((j : ℕ) → P j → Q j) → (is : List ℕ) → All P is → All Q is
All-weaken P Q f [] h = tt
All-weaken P Q f (j ∷ is) h = (f j h.0, All-weaken P Q f is h.1)

pub Not-unlink : (i : ℕ) (is : List ℕ) → Not i (unlink i is)
Not-unlink i [] = tt
Not-unlink i (j ∷ is) = elim (Bool-cases (j == i)) [
  | inl e ↦ rw e (Not-unlink i is)
  | inr e ↦ rw e (==_ne j i e, Not-unlink i is)
]

pub Not-unlink_other : (i j : ℕ) (is : List ℕ) → Not j is → Not j (unlink i is)
Not-unlink_other i j is h =
    All-weaken _ _ (λ x p. p.0) (unlink i is) (All-unlink (λ x. x ≡ j → ⊥) i is h)

pub Unique-unlink : (i : ℕ) (is : List ℕ) → Unique is → Unique (unlink i is)
Unique-unlink i [] h = tt
Unique-unlink i (j ∷ is) h = elim (Bool-cases (j == i)) [
  | inl e ↦ rw e (Unique-unlink i is h.1)
  | inr e ↦ rw e (Not-unlink_other i j is h.0, Unique-unlink i is h.1)
]

pub In-unlink : (i j : ℕ) (is : List ℕ) → In j is → (j ≡ i) ⊎ In j (unlink i is)
In-unlink i j [] h = absurd h
In-unlink i j (x ∷ is) (inl p) = elim (Bool-cases (x == i)) [
  | inl e ↦ inl (p ∙ ==→eq x i e)
  | inr e ↦ rw e (inr (inl p))
]
In-unlink i j (x ∷ is) (inr k) = elim (Bool-cases (x == i)) [
  | inl e ↦ rw e (In-unlink i j is k)
  | inr e ↦ rw e (elim (In-unlink i j is k) [ inl p ↦ inl p | inr m ↦ inr (inr m) ])
]

-- A node that is in no list leaves none.
unlink_id : (i : ℕ) (is : List ℕ) → Not i is → unlink i is ≡ is
unlink_id i [] h = refl
unlink_id i (j ∷ is) h = elim (Bool-cases (j == i)) [
  | inl e ↦ absurd (h.0 (==→eq j i e))
  | inr e ↦ rw e (ap (◌∷◌ j) (unlink_id i is h.1))
]

pub length-unlink :
    (i : ℕ) (is : List ℕ) → Unique is → In i is → suc (length (unlink i is)) ≡ length is
length-unlink i [] h k = absurd k
length-unlink i (j ∷ is) h (inl p) =
    rw (← p) (rw (==_self i) (ap (λ l. suc (length l)) (unlink_id i is (rw p h.0))))
length-unlink i (j ∷ is) h (inr k) = elim (Bool-cases (j == i)) [
  | inl e ↦ absurd (All-In (λ x. x ≡ j → ⊥) is i h.0 k (sym (==→eq j i e)))
  | inr e ↦ rw e (ap suc (length-unlink i is h.1 k))
]

pub In-last : (i : ℕ) (is : List ℕ) → last is ≡ some i → In i is
In-last i [] h = cc
In-last i (j ∷ []) h = inl (cc h)
In-last i (j ∷ (x ∷ is)) h = inr (In-last i (x ∷ is) h)

pub last-some : (i : ℕ) (is : List ℕ) → (j : ℕ) × (last (i ∷ is) ≡ some j)
last-some i [] = (i, refl)
last-some i (j ∷ is) = last-some j is

Not-upto : (x i n : ℕ) → x < i → Not x (upto i n)
Not-upto x i zero h = tt
Not-upto x i (suc n) h = ((λ e. omega arith), Not-upto x (i + 1) n (omega arith))

pub Unique-upto : (i n : ℕ) → Unique (upto i n)
Unique-upto i zero = tt
Unique-upto i (suc n) = (Not-upto i (i + 1) n (omega arith), Unique-upto (i + 1) n)

pub All-trivial : (P : ℕ → Type 0) → ((i : ℕ) → P i) → (is : List ℕ) → All P is
All-trivial P f [] = tt
All-trivial P f (i ∷ is) = (f i, All-trivial P f is)

pub length-upto : (i n : ℕ) → length (upto i n) ≡ n
length-upto i zero = refl
length-upto i (suc n) = ap suc (length-upto (i + 1) n)
