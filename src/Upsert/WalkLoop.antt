-- ===== src/Upsert/WalkLoop.antt =====
-- The loop of `upsert_`, given that the functions which it calls are correct; then all of them, by
-- induction on the fuel.
use nomad_mpt.Prelude.{ℕ, suc, ◌+◌, ◌-◌, ◌<◌, ◌≤◌, ◌≡◌, refl, sym, ap, ◌∙◌, arith, true, not, ◌&&◌}
use nomad_mpt.Prelude.{
  Option, none, some, List, [], ◌∷◌, ◌++◌, drop, take, length, All, get_or, Bool-cases, inl, inr,
}
use nomad_mpt.Prelude.{
  ◌==◌, ==→eq, ==_self, ==_ne, ==_flip, drop_all, take-suc, get_or-drop, length-drop, drop-get_or,
}
use nomad_mpt.Result.{Result, ok, check-eq-ok}
use nomad_mpt.Update.{
  Update, UpdateList, nil, cons, key, is_empty, Requests, get_first_branch, branches,
}
use nomad_mpt.Node
use nomad_mpt.Node.{Node, path}
use nomad_mpt.Lookup.{lookup_root, lookup_from, strip, after, at_end}
use nomad_mpt.Apply.{Map, apply_in, apply_one, apply_in-some, AllUpdates}
use nomad_mpt.Apply.Split.{split, Reaches}
use nomad_mpt.Apply.Masks.{split-IsSplit, get_first_branch_lem}
use nomad_mpt.Upsert.Base.{StateMachine, is_none, any}
use nomad_mpt.Upsert.Walking.{split_body, upsert_loop_body, upsert_body}
use nomad_mpt.Upsert.Build.{strip-append}
use nomad_mpt.Upsert.Tables.{Table, sublist-Table, Table-Reaches, Table-lengths, apply_in_short}
use nomad_mpt.Upsert.Create.{unmasked}
use nomad_mpt.Upsert.CreateLoop.{split-eq-ok}
use nomad_mpt.Upsert.Dispatch.{UpsertCorrect, below_branch, lookup_from-next}
use nomad_mpt.Upsert.Walk.{
  Dispatcher, DispatchCorrect, UpdateValue, UpdateValueCorrect, lookup_from_end,
}
use nomad_mpt.Nibbles.Bytes.{IsNibble}
use native.Mathlib.Decide.{ℕ_discrete}
use native.Mathlib.Nat.{sub_self}

abbrev pub Looper : Type 0 → Type 0
Looper S = S → Node → UpdateList → ℕ → ℕ → ℕ → Result (Option Node)

abbrev pub Mismatcher : Type 0 → Type 0
Mismatcher S = S → Node → Requests → List ℕ → ℕ → ℕ → Result (Option Node)

-- The path that the loop has matched.
abbrev pub matched : Node → ℕ → ℕ → List ℕ
matched old start q = take (q - start) (drop start (path old))

-- The map below the matched path after the updates.
abbrev pub changed : Node → UpdateList → ℕ → ℕ → Map
changed old us p q r = apply_in us p (lookup_from q old) (lookup_from q old r) r

abbrev pub UpsertLoopCorrect : {S : Type 0} → Looper S → Type 0
UpsertLoopCorrect {S} loop =
    (s : S) (old : Node) (us : UpdateList) (p start q n : ℕ) (res : Option Node)
    → Table p n us
    → p ≤ n
    → start ≤ q
    → q ≤ length (path old)
    → loop s old us p start q ≡ ok res
    → (k : List ℕ) → All IsNibble k
    → lookup_root res k ≡ after (strip (matched old start q) k) (changed old us p q)

abbrev pub MismatchCorrect : {S : Type 0} → Mismatcher S → Type 0
MismatchCorrect {S} mismatch =
    (s : S) (old : Node) (us : UpdateList) (p q n : ℕ) (path : List ℕ) (res : Option Node)
    → Table p n us
    → AllUpdates (Reaches p) us
    → q < length (Node.path old)
    → mismatch s old (split us p).0 path q p ≡ ok res
    → (k : List ℕ) → All IsNibble k
    → lookup_root res k
      ≡ after (strip path k) (
          at_end none
            (λ b r. apply_in us p (lookup_from q old) (lookup_from q old (b ∷ r)) (b ∷ r)))

-- One nibble further along the old path, where all the updates go the same way.
along :
    (old : Node) (us : UpdateList) (p start q n : ℕ)
    → Table p n us
    → AllUpdates (Reaches p) us
    → start ≤ q
    → q < length (path old)
    → (split us p).1 ≡ 1
    → (split us p).0.mask (get_or (path old) q 0) ≡ true
    → (k : List ℕ)
    → after
        (strip (matched old start (q + 1)) k)
        (changed old ((split us p).0.sublists (get_or (path old) q 0)) (p + 1) (q + 1))
      ≡ after (strip (matched old start q) k) (changed old us p q)
along old us p start q n t h st lt one m k =
    rw (longer, strip-append) (go (strip (matched old start q) k))
  where
    x : ℕ
    x = get_or (path old) q 0

    longer : matched old start (q + 1) ≡ matched old start q ++ (x ∷ [])
    longer =
        let more : q + 1 - start ≡ suc (q - start) = omega arith in
        let back : start + (q - start) ≡ q = omega arith in
        rw more (
          take-suc (drop start (path old)) (q - start) 0
            (omega (arith, length-drop start (path old)))
          ∙ rw (get_or-drop, back))

    short : lookup_from q old [] ≡ none
    short = rw (drop-get_or (path old) q 0 lt)

    go :
        (o : Option (List ℕ))
        → after (after o (strip (x ∷ []))) (changed old ((split us p).0.sublists x) (p + 1) (q + 1))
          ≡ after o (changed old us p q)
    go none = refl
    go (some []) = sym (apply_in_short us p (lookup_from q old) (lookup_from q old []) h ∙ short)
    go (some (c ∷ r)) = elim (Bool-cases (x == c)) [
      | inl e ↦ rw e (
          rw (← ==→eq _ _ e) (
            below_branch us p n x (lookup_from q old) (lookup_from (q + 1) old) r t h
              (λ k'. lookup_from-next old q x k' lt ∙ rw (==_self x))))
      | inr e ↦ rw e (
          sym (elim (Bool-cases ((split us p).0.mask c)) [
            | inl mc ↦ absurd (==_ne _ _ e ((split-IsSplit us p).one_if one x c m mc))
            | inr mc ↦
                unmasked us p n c (lookup_from q old) (lookup_from q old (c ∷ r)) r t h mc
                ∙ lookup_from-next old q c r lt
                ∙ rw (==_flip x c e)
          ]))
    ]

-- The old path ends here, or goes on: at the end of the matched path nothing changes.
at_matched :
    (old : Node) (us : UpdateList) (p q : ℕ) (v : Option (List ℕ))
    → AllUpdates (Reaches p) us
    → lookup_from q old [] ≡ v
    → (o : Option (List ℕ))
    → after o
        (at_end v (λ b r. apply_in us p (lookup_from q old) (lookup_from q old (b ∷ r)) (b ∷ r)))
      ≡ after o (changed old us p q)
at_matched old us p q v h e none = refl
at_matched old us p q v h e (some []) =
    sym (apply_in_short us p (lookup_from q old) (lookup_from q old []) h ∙ e)
at_matched old us p q v h e (some (b ∷ r)) = refl

-- Two keys of one length that both end at nibble `p` are equal.
pub two_go_on :
    (u w : Update) (us : UpdateList) (p n : ℕ) → Table p n (cons u (cons w us)) → p ≤ n → p < n
two_go_on u w us p n t le = elim (ℕ_discrete p n) [
  | no ne ↦ omega arith
  | yes e ↦
      let ends = Table-lengths p n (cons u (cons w us)) t in
      absurd (
        t.distinct.0.0 (
          drop_all (key w) p (omega (arith, ends.1.0))
          ∙ sym (drop_all (key u) p (omega (arith, ends.0)))))
]

module _ {S : Type 0} (sm : StateMachine S) (loop : Looper S) (update_value : UpdateValue S)
    (dispatch : Dispatcher S) (mismatch : Mismatcher S) (loop_correct : UpsertLoopCorrect loop)
    (update_correct : UpdateValueCorrect update_value) (dispatch_correct : DispatchCorrect dispatch)
    (mismatch_correct : MismatchCorrect mismatch) where
  split_body_correct :
      (s : S) (old : Node) (us : UpdateList) (p start q n : ℕ) (res : Option Node)
      → Table p n us
      → p < n
      → start ≤ q
      → q ≤ length (path old)
      → split_body sm loop dispatch mismatch s old us p start q ≡ ok res
      → (k : List ℕ) → All IsNibble k
      → lookup_root res k ≡ after (strip (matched old start q) k) (changed old us p q)
  unfolding split_body
  split_body_correct s old us p start q n res t lt st le e k nk =
      let h = Table-Reaches p n us t lt in
      let x = get_or (path old) q 0 in
      let r = (split us p).0 in
      let e1 = split-eq-ok us p _ h e in
      let (some_branch, e2) = check-eq-ok (any r.mask branches) _ e1 in
      elim (Bool-cases (q == length (path old))) [
        | inl d ↦
            let (_, e3) = check-eq-ok (is_none r.opt_leaf) _ (rw d at e2) in
            let at_q : lookup_from q old ≡ lookup_from (length (path old)) old =
              ap (λ i. lookup_from i old) (==→eq _ _ d) in
            dispatch_correct s old us p n (lookup_from q old) (matched old start q) (Node.value old)
              (Node.version old) res t h
              (λ b r'. ap (λ f. f (b ∷ r')) at_q ∙ lookup_from_end old (b ∷ r')) e3 k nk
            ∙ at_matched old us p q (Node.value old) h
                (ap (λ f. f []) at_q ∙ lookup_from_end old []) (strip (matched old start q) k)
        | inr d ↦
            let within : q < length (path old) = omega (arith, ==_ne _ _ d) in
            elim (Bool-cases ((split us p).1 == 1 && get_first_branch r == x)) [
              | inl y ↦
                  let one : (split us p).1 ≡ 1 = ground (arith, y) in
                  let first : get_first_branch r ≡ x = ground (arith, y) in
                  loop_correct (sm.down s x) old (r.sublists x) (p + 1) start (q + 1) n res
                    (sublist-Table p n x us t lt) (omega arith) (omega arith) (omega arith)
                    (rw (d, y) at e2) k nk
                  ∙ along old us p start q n t h st within one
                      (rw (← first) (get_first_branch_lem r some_branch)) k
              | inr y ↦
                  mismatch_correct s old us p q n (matched old start q) res t h within
                    (rw (d, y) at e2) k nk
                  ∙ at_matched old us p q none h (rw (drop-get_or (path old) q 0 within))
                      (strip (matched old start q) k)
            ]
      ]

  -- The only update ends where the old path ends.
  ends_here :
      (old : Node) (u : Update) (p q : ℕ)
      → p ≡ length (key u)
      → length (path old) ≡ q
      → (o : Option (List ℕ))
      → after o (apply_one u (lookup_from (length (path old)) old))
        ≡ after o (changed old (cons u nil) p q)
  ends_here old u p q pe qe none = refl
  ends_here old u p q pe qe (some r) =
      let gone = drop_all (key u) p (omega arith) in
      sym (
        apply_in-some u nil p (lookup_from q old) (lookup_from q old r) r r (rw gone)
        ∙ rw (gone, qe))

  no_updates :
      (s : S) (old : Node) (p start q : ℕ) (res : Option Node)
      → split_body sm loop dispatch mismatch s old nil p start q ≡ ok res
      → ⊥
  unfolding split_body
  no_updates s old p start q res e = cc (split-eq-ok nil p _ tt e)

  pub upsert_loop_body_correct :
      UpsertLoopCorrect (upsert_loop_body sm loop update_value dispatch mismatch)
  unfolding upsert_loop_body
  upsert_loop_body_correct s old nil p start q n res t pn st le e k nk =
      absurd (no_updates s old p start q res e)
  upsert_loop_body_correct s old (cons u (cons w us)) p start q n res t pn st le e k nk =
      split_body_correct s old (cons u (cons w us)) p start q n res t (two_go_on u w us p n t pn) st
        le e k nk
  upsert_loop_body_correct s old (cons u nil) p start q n res t pn st le e k nk =
      elim (Bool-cases (p == length (key u))) [
        | inl d ↦
            let (ended, e1) = check-eq-ok (length (path old) == q) _ (rw d at e) in
            let (_, e2) = check-eq-ok (not (is_none (Node.value old))) _ e1 in
            update_correct s old (matched old start q) u n res t.entries.0 e2 k nk
            ∙ ends_here old u p q (==→eq _ _ d) (==→eq _ _ ended) (strip (matched old start q) k)
        | inr d ↦
            split_body_correct s old (cons u nil) p start q n res t
              (omega (arith, ==_ne _ _ d, (Table-lengths p n (cons u nil) t).0)) st le (rw d at e) k
              nk
      ]

  pub upsert_body_correct : UpsertCorrect (upsert_body sm loop)
  unfolding upsert_body
  upsert_body_correct s old us p q n res t le lq e k nk =
      let (_, e1) = check-eq-ok (not (is_empty us)) _ e in
      let (_, e2) = check-eq-ok (not (sm.is_variable_length s)) _ e1 in
      let (_, e3) = check-eq-ok (not (q == 255)) _ e2 in
      loop_correct s old us p q q n res t le (omega arith) lq e3 k nk ∙ rw (sub_self q)
