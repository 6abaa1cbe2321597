-- ===== src/Apply/Masks.antt =====
-- The mask and the count of `split_into_sublists`.
use nomad_mpt.Prelude.{In}
use nomad_mpt.Prelude.{
  ℕ, zero, suc, ◌+◌, ◌<◌, ◌≤◌, ◌≡◌, refl, sym, ◌∙◌, ◌⊎◌, arith, true, false, not,
}
use nomad_mpt.Prelude.{if◌then◌else◌, none, List, [], ◌∷◌, get_or}
use nomad_mpt.Prelude.{◌==◌, Bool-cases, inl, inr, ==→eq, ==_self}
use nomad_mpt.Update.{Update, UpdateList, nil, cons, key, is_empty, Requests, reset, Mask}
use nomad_mpt.Update.{place, branches, lowest, get_first_branch}
use nomad_mpt.Upsert.Base.{any}
use native.Mathlib.Decide.{ℕ_discrete}
use nomad_mpt.Apply.Split.{place_all, split, place-sublists}

-- The mask has the branches with a sublist, the count tells none and one apart, and no key ended.
pub record IsSplit (s : Requests × ℕ) : Type 0 where
  pub masked : (b : ℕ) → s.0.mask b ≡ not (is_empty (s.0.sublists b))
  pub none_if : s.1 ≡ 0 → (b : ℕ) → s.0.mask b ≡ false
  pub one_if : s.1 ≡ 1 → (b c : ℕ) → s.0.mask b ≡ true → s.0.mask c ≡ true → b ≡ c
  pub some_if : 0 < s.1 → (b : ℕ) × (s.0.mask b ≡ true)
  pub two_if : 1 < s.1 → (b : ℕ) × (c : ℕ) × (b ≡ c → ⊥) × (s.0.mask b ≡ true) × (s.0.mask c ≡ true)
  pub no_leaf : s.0.opt_leaf ≡ none

place-mask :
    (u : Update) (c b : ℕ) (s : Requests × ℕ)
    → IsSplit s
    → (place u c s).0.mask b ≡ (if b == c then true else s.0.mask b)
place-mask u c b (r, n) h = elim (Bool-cases (is_empty (r.sublists c))) [
  | inl e ↦ rw (e)
  | inr e ↦ rw e (elim (Bool-cases (b == c)) [
    | inl d ↦ rw (d, ==→eq _ _ d) (h.masked c ∙ rw e)
    | inr d ↦ rw d
  ])
]

place-count :
    (u : Update) (c : ℕ) (s : Requests × ℕ)
    → (place u c s).1 ≡ (if is_empty (s.0.sublists c) then s.1 + 1 else s.1)
place-count u c (r, n) = ground arith

place-leaf : (u : Update) (c : ℕ) (s : Requests × ℕ) → (place u c s).0.opt_leaf ≡ s.0.opt_leaf
place-leaf u c (r, n) = ground arith

place-mask_cases :
    (u : Update) (c b : ℕ) (s : Requests × ℕ)
    → IsSplit s
    → (place u c s).0.mask b ≡ true
    → (b ≡ c) ⊎ (s.0.mask b ≡ true)
place-mask_cases u c b s h e = elim (Bool-cases (b == c)) [
  | inl d ↦ inl (==→eq _ _ d)
  | inr d ↦ inr (rw d at (rw (place-mask u c b s h) at e))
]

-- A branch that had a sublist already is in the mask.
old_branch :
    (c : ℕ) (s : Requests × ℕ) → IsSplit s → is_empty (s.0.sublists c) ≡ false → s.0.mask c ≡ true
old_branch c s h e = h.masked c ∙ rw e

no_branch : (s : Requests × ℕ) (b : ℕ) → IsSplit s → s.1 ≡ 0 → s.0.mask b ≡ true → ⊥
no_branch s b h z e = cc (h.none_if z b, e)

place_none : (u : Update) (c : ℕ) (s : Requests × ℕ) → IsSplit s → (place u c s).1 ≡ 0 → ⊥
place_none u c s h z = elim (Bool-cases (is_empty (s.0.sublists c))) [
  | inl e ↦ absurd (omega (arith, (rw e at (sym (place-count u c s) ∙ z))))
  | inr e ↦ no_branch s c h (rw e at (sym (place-count u c s) ∙ z)) (old_branch c s h e)
]

place_one :
    (u : Update) (c b d : ℕ) (s : Requests × ℕ)
    → IsSplit s
    → (place u c s).1 ≡ 1
    → (b ≡ c) ⊎ (s.0.mask b ≡ true)
    → (d ≡ c) ⊎ (s.0.mask d ≡ true)
    → b ≡ d
place_one u c b d s h o x y = elim (Bool-cases (is_empty (s.0.sublists c))) [
  | inl e ↦
      let z : s.1 ≡ 0 = omega (arith, (rw e at (sym (place-count u c s) ∙ o))) in
      fresh x y (λ k m. no_branch s k h z m)
  | inr e ↦
      let one : s.1 ≡ 1 = rw e at (sym (place-count u c s) ∙ o) in
      h.one_if one b d (known x (old_branch c s h e)) (known y (old_branch c s h e))
]
  where
    fresh :
        (b ≡ c) ⊎ (s.0.mask b ≡ true)
        → (d ≡ c) ⊎ (s.0.mask d ≡ true)
        → ((k : ℕ) → s.0.mask k ≡ true → ⊥)
        → b ≡ d
    fresh (inl p) (inl q) f = p ∙ sym q
    fresh (inl p) (inr q) f = absurd (f d q)
    fresh (inr p) q f = absurd (f b p)

    known : {k : ℕ} → (k ≡ c) ⊎ (s.0.mask k ≡ true) → s.0.mask c ≡ true → s.0.mask k ≡ true
    known (inl p) m = rw p m
    known (inr q) m = q

-- A branch in the mask stays there, and the update's branch joins it.
place_keeps :
    (u : Update) (c b : ℕ) (s : Requests × ℕ)
    → IsSplit s
    → s.0.mask b ≡ true
    → (place u c s).0.mask b ≡ true
place_keeps u c b s h m =
    place-mask u c b s h ∙ elim (Bool-cases (b == c)) [ inl e ↦ rw e refl | inr e ↦ rw e m ]

place_joins : (u : Update) (c : ℕ) (s : Requests × ℕ) → IsSplit s → (place u c s).0.mask c ≡ true
place_joins u c s h = place-mask u c c s h ∙ rw (==_self c) refl

place_two :
    (u : Update) (c : ℕ) (s : Requests × ℕ)
    → IsSplit s
    → 1 < (place u c s).1
    → (b : ℕ) × (d : ℕ) × (b ≡ d → ⊥)
      × ((place u c s).0.mask b ≡ true)
      × ((place u c s).0.mask d ≡ true)
place_two u c s h two = elim (Bool-cases (is_empty (s.0.sublists c))) [
  | inl e ↦
      let more : (place u c s).1 ≡ s.1 + 1 = place-count u c s ∙ rw e refl in
      let (b, m) = h.some_if (omega (arith, two, more)) in
      let out : s.0.mask c ≡ false = h.masked c ∙ rw e refl in
      (b, c, λ same. clash (rw same at m) out, place_keeps u c b s h m, place_joins u c s h)
  | inr e ↦
      let same : (place u c s).1 ≡ s.1 = place-count u c s ∙ rw e refl in
      let (b, d, ne, m, m') = h.two_if (omega (arith, two, same)) in
      (b, d, ne, place_keeps u c b s h m, place_keeps u c d s h m')
]
  where
    clash : s.0.mask c ≡ true → s.0.mask c ≡ false → ⊥
    clash x y = cc

place-IsSplit : (u : Update) (c : ℕ) (s : Requests × ℕ) → IsSplit s → IsSplit (place u c s)
place-IsSplit u c s h = record {
  masked = λ b.
      rw (place-mask u c b s h, place-sublists)
        (elim (Bool-cases (b == c)) [ inl e ↦ rw e | inr e ↦ rw e (h.masked b) ]);
  none_if = λ z b. absurd (place_none u c s h z);
  one_if = λ o b d x y.
      place_one u c b d s h o (place-mask_cases u c b s h x) (place-mask_cases u c d s h y);
  some_if = λ pos. (c, place_joins u c s h);
  two_if = λ two. place_two u c s h two;
  no_leaf = rw place-leaf h.no_leaf;
}

place_all-IsSplit :
    (us : UpdateList) (p : ℕ) (s : Requests × ℕ) → IsSplit s → IsSplit (place_all us p s)
place_all-IsSplit nil p s h = h
place_all-IsSplit (cons u us) p s h =
    place_all-IsSplit us p (place u (get_or (key u) p 0) s)
      (place-IsSplit u (get_or (key u) p 0) s h)

pub split-IsSplit : (us : UpdateList) (p : ℕ) → IsSplit (split us p)
split-IsSplit us p =
    place_all-IsSplit us p (reset p, 0)
      (record {
        masked = λ b. refl;
        none_if = λ z b. refl;
        one_if = λ o b c x y. cc;
        some_if = λ pos. absurd (omega arith);
        two_if = λ two. absurd (omega arith);
        no_leaf = refl;
      })

pub place_all_nonempty :
    (us : UpdateList) (p b : ℕ) (s : Requests × ℕ)
    → is_empty (s.0.sublists b) ≡ false
    → is_empty ((place_all us p s).0.sublists b) ≡ false
place_all_nonempty nil p b s h = h
place_all_nonempty (cons u us) p b s h =
    place_all_nonempty us p b (place u (get_or (key u) p 0) s) (
      rw place-sublists
        (elim (Bool-cases (b == get_or (key u) p 0)) [ inl e ↦ rw e | inr e ↦ rw e h ]))

-- The first update's branch has a sublist.
pub split_nonempty :
    (u : Update) (us : UpdateList) (p : ℕ)
    → (split (cons u us) p).0.mask (get_or (key u) p 0) ≡ true
split_nonempty u us p =
    let b = get_or (key u) p 0 in
    let h = split-IsSplit (cons u us) p in
    h.masked b
    ∙ rw (place_all_nonempty us p b (place u b (reset p, 0)) (rw (place-sublists, ==_self b)))

pub split_pos : (u : Update) (us : UpdateList) (p : ℕ) → 0 < (split (cons u us) p).1
split_pos u us p = elim (ℕ_discrete (split (cons u us) p).1 0) [
  | yes z ↦
      absurd
        (no_branch (split (cons u us) p) _ (split-IsSplit (cons u us) p) z (split_nonempty u us p))
  | no z ↦ omega arith
]

abbrev upto : ℕ → ℕ → List ℕ
upto i zero = []
upto i (suc n) = i ∷ upto (i + 1) n

In-upto : (b i n : ℕ) → i ≤ b → b < i + n → In b (upto i n)
In-upto b i zero h l = absurd (omega arith)
In-upto b i (suc n) h l = elim (ℕ_discrete b i) [
  | yes e ↦ inl e
  | no ne ↦ inr (In-upto b (i + 1) n (omega arith) (omega arith))
]

pub In-branches : (b : ℕ) → b < 16 → In b branches
In-branches b h = In-upto b 0 16 (omega arith) (omega arith)

any-In : (mask : Mask) (b : ℕ) (bs : List ℕ) → In b bs → mask b ≡ true → any mask bs ≡ true
any-In mask b (x ∷ bs) (inl e) m = rw (← e, m)
any-In mask b (x ∷ bs) (inr h) m = elim (Bool-cases (mask x)) [
  | inl t ↦ rw t
  | inr f ↦ rw f (any-In mask b bs h m)
]
any-In mask b [] h m = absurd h

lowest_lem : (mask : Mask) (bs : List ℕ) → any mask bs ≡ true → mask (lowest mask bs) ≡ true
lowest_lem mask [] h = cc
lowest_lem mask (b ∷ bs) h = elim (Bool-cases (mask b)) [
  | inl t ↦ rw (t, t)
  | inr f ↦ rw f (lowest_lem mask bs (rw f at h))
]

pub any_branch :
    (u : Update) (us : UpdateList) (p : ℕ)
    → get_or (key u) p 0 < 16
    → any (split (cons u us) p).0.mask branches ≡ true
any_branch u us p h =
    any-In (split (cons u us) p).0.mask (get_or (key u) p 0) branches (In-branches _ h)
      (split_nonempty u us p)

-- `get_first_branch` is a branch of the mask.
pub get_first_branch_lem :
    (r : Requests) → any r.mask branches ≡ true → r.mask (get_first_branch r) ≡ true
unfolding get_first_branch
get_first_branch_lem r h = lowest_lem r.mask branches h

pub first_branch :
    (u : Update) (us : UpdateList) (p : ℕ)
    → get_or (key u) p 0 < 16
    → (split (cons u us) p).0.mask (get_first_branch (split (cons u us) p).0) ≡ true
first_branch u us p h = get_first_branch_lem (split (cons u us) p).0 (any_branch u us p h)

pub masked_sublist :
    (us : UpdateList) (p b : ℕ)
    → (split us p).0.mask b ≡ true
    → is_empty ((split us p).0.sublists b) ≡ false
masked_sublist us p b m = ground (arith, (split-IsSplit us p).masked b)
