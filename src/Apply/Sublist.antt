-- ===== src/Apply/Sublist.antt =====
-- The keys of a sublist stay distinct, and its updates make the change below their branch.
use nomad_mpt.Prelude.{ℕ, ◌+◌, ◌<◌, ◌≡◌, refl, sym, ap, ◌∙◌, arith}
use nomad_mpt.Prelude.{Option, none, some, List, [], ◌∷◌, ◌++◌, drop, length, get_or}
use nomad_mpt.Prelude.{◌==◌, Bool-cases, Option-cases, inl, inr, ==→eq, drop-get_or, length-drop}
use nomad_mpt.Update.{Update, UpdateList, nil, cons, key, Requests, reset, place}
use nomad_mpt.Lookup.{strip}
use nomad_mpt.Apply.{
  Map, apply_in, apply_in-none, apply_in-some, apply_one, AllUpdates, Fresh, Distinct,
}
use nomad_mpt.Apply.Split.{place_all, split, place-sublists}

-- Two keys of one length are not both prefixes of a key.
pub strip_miss :
    (p q k : List ℕ) {r : List ℕ}
    → strip p k ≡ some r
    → length q ≡ length p
    → (q ≡ p → ⊥)
    → strip q k ≡ none
strip_miss [] [] k h l ne = absurd (ne refl)
strip_miss [] (y ∷ q) k h l ne = absurd (omega arith)
strip_miss (x ∷ p) [] k h l ne = absurd (omega arith)
strip_miss (x ∷ p) (y ∷ q) [] h l ne = refl
strip_miss (x ∷ p) (y ∷ q) (z ∷ k) h l ne = elim (Bool-cases (x == z)) [
  | inl e ↦ elim (Bool-cases (y == z)) [
    | inl e' ↦ rw e' (
        strip_miss p q k ((rw e at h)) (omega arith)
          (λ same. ne (cc (same, ==→eq _ _ e, ==→eq _ _ e'))))
    | inr e' ↦ rw e'
  ]
  | inr e ↦ absurd (cc ((rw e at h)))
]

abbrev pub HasLength : ℕ → Update → Type 0
HasLength n u = length (key u) ≡ n

drop-length :
    (p n : ℕ) (u w : Update)
    → HasLength n u
    → HasLength n w
    → length (drop p (key w)) ≡ length (drop p (key u))
drop-length p n u w hu hw = rw (length-drop, length-drop) (omega arith)

apply_in_miss :
    (us : UpdateList) (p n : ℕ) (m : Map) (old : Option (List ℕ)) (u : Update) (k : List ℕ)
    {r : List ℕ}
    → HasLength n u
    → AllUpdates (HasLength n) us
    → Fresh p (drop p (key u)) us
    → strip (drop p (key u)) k ≡ some r
    → apply_in us p m old k ≡ old
apply_in_miss nil p n m old u k hu hs f e = unfold apply_in in refl
apply_in_miss (cons w us) p n m old u k hu hs f e =
    apply_in-none w us p m old k
      (strip_miss (drop p (key u)) (drop p (key w)) k e (drop-length p n u w hu hs.0) f.0)
    ∙ apply_in_miss us p n m old u k hu hs.1 f.1 e

-- One update, placed in its sublist.
apply_in-place :
    (u : Update) (us : UpdateList) (p n b : ℕ) (m : Map) (old : Option (List ℕ)) (k : List ℕ)
    (s : Requests × ℕ)
    → HasLength n u
    → p < n
    → AllUpdates (HasLength n) us
    → Fresh p (drop p (key u)) us
    → apply_in us p m
        (apply_in ((place u (get_or (key u) p 0) s).0.sublists b) (p + 1) (λ k'. m (b ∷ k')) old k)
        (b ∷ k)
      ≡ apply_in
          (cons u us)
          p
          m
          (apply_in (s.0.sublists b) (p + 1) (λ k'. m (b ∷ k')) old k)
          (b ∷ k)
apply_in-place u us p n b m old k s hu lt hs f =
    let c = get_or (key u) p 0 in
    let m' : Map = λ k'. m (b ∷ k') in
    let d = apply_in (s.0.sublists b) (p + 1) m' old k in
    let cut = drop-get_or (key u) p 0 (omega arith) in
    rw place-sublists (elim (Bool-cases (b == c)) [
      | inr e ↦ rw e (sym (apply_in-none u us p m d (b ∷ k) (rw cut (ground arith))))
      | inl e ↦
          let same : strip (drop p (key u)) (b ∷ k) ≡ strip (drop (p + 1) (key u)) k =
            rw cut (ground arith) in
          let whole : b ∷ drop (p + 1) (key u) ≡ drop p (key u) = rw (==→eq b c e) (sym cut) in
          rw e (elim (Option-cases (strip (drop (p + 1) (key u)) k)) [
            | inl o ↦ rw (
              apply_in-none u (s.0.sublists c) (p + 1) m' old k o,
              ← ==→eq _ _ e,
              apply_in-none u us p m d (b ∷ k) (same ∙ o),
            )
            | inr (r, o) ↦
                rw
                  (
                    apply_in-some u (s.0.sublists c) (p + 1) m' old k r o,
                    apply_in-some u us p m d (b ∷ k) r (same ∙ o),
                  )
                  (apply_in_miss us p n m _ u (b ∷ k) hu hs f (same ∙ o)
                    ∙ ap (λ w. apply_one u (λ r'. m (w ++ r')) r) whole)
          ])
    ])

place_all-apply_in :
    (us : UpdateList) (p n b : ℕ) (m : Map) (old : Option (List ℕ)) (k : List ℕ) (s : Requests × ℕ)
    → p < n
    → AllUpdates (HasLength n) us
    → Distinct p us
    → apply_in ((place_all us p s).0.sublists b) (p + 1) (λ k'. m (b ∷ k')) old k
      ≡ apply_in us p m (apply_in (s.0.sublists b) (p + 1) (λ k'. m (b ∷ k')) old k) (b ∷ k)
place_all-apply_in nil p n b m old k s lt hs d = unfold apply_in in refl
place_all-apply_in (cons u us) p n b m old k s lt hs d =
    place_all-apply_in us p n b m old k (place u (get_or (key u) p 0) s) lt hs.1 d.1
    ∙ apply_in-place u us p n b m old k s hs.0 lt hs.1 d.0

-- The sublist of a branch makes the change that the whole list makes below the branch.
pub split-apply_in :
    (us : UpdateList) (p n b : ℕ) (m : Map) (old : Option (List ℕ)) (k : List ℕ)
    → p < n
    → AllUpdates (HasLength n) us
    → Distinct p us
    → apply_in ((split us p).0.sublists b) (p + 1) (λ k'. m (b ∷ k')) old k
      ≡ apply_in us p m old (b ∷ k)
split-apply_in us p n b m old k lt hs d =
    place_all-apply_in us p n b m old k (reset p, 0) lt hs d ∙ unfold apply_in in refl

-- The keys of a sublist differ behind the nibble that they share.
abbrev Apart : ℕ → (ℕ → UpdateList) → UpdateList → Type 0
Apart p lists us =
    AllUpdates (λ w. Fresh (p + 1) (drop (p + 1) (key w)) (lists (get_or (key w) p 0))) us

Apart-place :
    (u : Update) (us : UpdateList) (p n : ℕ) (s : Requests × ℕ)
    → HasLength n u
    → p < n
    → AllUpdates (HasLength n) us
    → Fresh p (drop p (key u)) us
    → Apart p s.0.sublists us
    → Apart p (place u (get_or (key u) p 0) s).0.sublists us
Apart-place u nil p n s hu lt hs f a = tt
Apart-place u (cons w us) p n s hu lt hs f a = (
  rw place-sublists (elim (Bool-cases (get_or (key w) p 0 == get_or (key u) p 0)) [
    | inr e ↦ rw e a.0
    | inl e ↦ rw e (
      (λ same. f.0 (
          drop-get_or (key w) p 0 (omega (arith, hs.0))
          ∙ cc (==→eq _ _ e, same)
          ∙ sym (drop-get_or (key u) p 0 (omega (arith, hu))))),
      (rw (← ==→eq _ _ e) a.0),
    )
  ]),
  Apart-place u us p n s hu lt hs.1 f.1 a.1,
)

place_all-Distinct :
    (us : UpdateList) (p n b : ℕ) (s : Requests × ℕ)
    → p < n
    → AllUpdates (HasLength n) us
    → Distinct p us
    → Apart p s.0.sublists us
    → Distinct (p + 1) (s.0.sublists b)
    → Distinct (p + 1) ((place_all us p s).0.sublists b)
place_all-Distinct nil p n b s lt hs d a k = k
place_all-Distinct (cons u us) p n b s lt hs d a k =
    place_all-Distinct us p n b (place u (get_or (key u) p 0) s) lt hs.1 d.1
      (Apart-place u us p n s hs.0 lt hs.1 d.0 a.1)
      (rw place-sublists (elim (Bool-cases (b == get_or (key u) p 0)) [
        | inr e ↦ rw e k
        | inl e ↦ rw e (a.0, rw (← ==→eq _ _ e) k)
      ]))

Apart-nil : (us : UpdateList) (p : ℕ) → Apart p (λ b. nil) us
Apart-nil nil p = tt
Apart-nil (cons u us) p = (tt, Apart-nil us p)

pub split-Distinct :
    (us : UpdateList) (p n b : ℕ)
    → p < n
    → AllUpdates (HasLength n) us
    → Distinct p us
    → Distinct (p + 1) ((split us p).0.sublists b)
split-Distinct us p n b lt hs d =
    place_all-Distinct us p n b (reset p, 0) lt hs d (Apart-nil us p) tt
