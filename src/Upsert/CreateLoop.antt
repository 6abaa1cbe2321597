-- ===== src/Upsert/CreateLoop.antt =====
-- `create_new_trie_` and its loop, given that the functions which they call are correct; then all of
-- them, by induction on the fuel.
use nomad_mpt.Prelude.{
  ℕ, zero, suc, ◌+◌, ◌-◌, ◌<◌, ◌≤◌, ◌≡◌, refl, sym, ap, ◌∙◌, arith, true, false, not, ◌||◌,
}
use nomad_mpt.Prelude.{
  Option, none, some, List, [], ◌∷◌, ◌++◌, drop, take, All, get_or, Bool-cases, Option-cases, inl,
  inr,
}
use nomad_mpt.Prelude.{◌==◌, ==→eq, ==_ne, ltb, ltb→lt}
use nomad_mpt.Result.{Result, ok, ◌>>=◌, >>=-eq-ok, check-eq-ok}
use nomad_mpt.Update.{Update, UpdateList, nil, cons, key, value, next, version, is_empty, Requests}
use nomad_mpt.Update.{split_into_sublists, front_key, get_first_branch, get_first_path}
use nomad_mpt.Node.{Node}
use nomad_mpt.Lookup.{lookup_root, strip, after, at_end}
use nomad_mpt.Apply.{no_keys, apply_in, apply_one, apply_in-none, apply_in-some, AllUpdates}
use nomad_mpt.Apply.Split.{split, split_into_sublists-split, split-AllUpdates, At, Reaches}
use nomad_mpt.Apply.Masks.{split-IsSplit, first_branch, masked_sublist}
use nomad_mpt.Apply.Sublist.{HasLength}
use nomad_mpt.Update.{reset}
use nomad_mpt.Prelude.{subst}
use nomad_mpt.Upsert.Tables.{AllUpdates-map, AllUpdates-both, entry_nibble}
use nomad_mpt.Upsert.Base.{StateMachine, is_none, descend, leaf_value, leaf_version}
use nomad_mpt.Upsert.New.{create_body, create_loop_body}
use nomad_mpt.Upsert.Build.{strip-append}
use nomad_mpt.Upsert.Tables.{
  Table, sublist-Table, sublist-apply_in, Table-lengths, Table-Reaches, IsTable-Table,
  IsTable-Reaches,
}
use nomad_mpt.Upsert.Tables.{
  apply_one-new, apply_in_short, entry_next, Shares, Shares-next, split_ended,
}
use nomad_mpt.Upsert.Recursion.{create_new_trie, create_loop, create_new_trie_from_requests}
use nomad_mpt.Upsert.Create.{CreateCorrect, unmasked, from_requests_body_correct}
use nomad_mpt.Nibbles.Bytes.{IsNibble}
use native.Mathlib.Decide.{ℕ_discrete}
use native.Mathlib.Nat.{sub_self}

Shares-start : (p : ℕ) (us : UpdateList) → AllUpdates (Shares p p []) us
Shares-start p nil = tt
Shares-start p (cons u us) = (rw (sub_self p), Shares-start p us)

abbrev pub FromRequests : Type 0 → Type 0
FromRequests S = S → Requests → List ℕ → ℕ → Option (List ℕ) → ℕ → Result (Option Node)

abbrev pub FromRequestsCorrect : {S : Type 0} → FromRequests S → Type 0
FromRequestsCorrect {S} from_requests =
    (s : S) (us : UpdateList) (path : List ℕ) (p n : ℕ) (leaf : Option (List ℕ)) (ver : ℕ)
    (res : Option Node)
    → Table p n us
    → AllUpdates (Reaches p) us
    → from_requests s (split us p).0 path p leaf ver ≡ ok res
    → (k : List ℕ) → All IsNibble k
    → lookup_root res k
      ≡ after (strip path k) (at_end leaf (λ b r. apply_in us p no_keys none (b ∷ r)))

abbrev pub LoopCorrect : {S : Type 0} → (S → UpdateList → ℕ → ℕ → Result (Option Node)) → Type 0
LoopCorrect {S} loop =
    (s : S) (us : UpdateList) (start p n : ℕ) (seg : List ℕ) (res : Option Node)
    → Table p n us
    → start ≤ p
    → p ≤ n
    → AllUpdates (Shares start p seg) us
    → loop s us start p ≡ ok res
    → (k : List ℕ) → All IsNibble k
    → lookup_root res k ≡ after (strip seg k) (apply_in us p no_keys none)

-- What follows a split of keys that reach past it.
pub split-eq-ok :
    {A : Type 0} (us : UpdateList) (p : ℕ) (f : Requests × ℕ → Result A) {b : A}
    → AllUpdates (Reaches p) us
    → (split_into_sublists us p >>= f) ≡ ok b
    → f (split us p) ≡ ok b
split-eq-ok us p f h e = rw (split_into_sublists-split us p h) at e

module _ {S : Type 0} (sm : StateMachine S) (loop : S → UpdateList → ℕ → ℕ → Result (Option Node))
    (from_requests : FromRequests S) (loop_correct : LoopCorrect loop)
    (from_correct : FromRequestsCorrect from_requests) where
  single :
      (o : Option (List ℕ)) (u : Update)
      → after o (at_end (value u) (λ b r. apply_in (next u) 0 no_keys none (b ∷ r)))
        ≡ after o (apply_one u no_keys)
  single none u = refl
  single (some r) u = sym (apply_one-new u r)

  of_single :
      (u : Update) (p : ℕ) (k : List ℕ)
      → after (strip (drop p (key u)) k) (apply_one u no_keys)
        ≡ apply_in (cons u nil) p no_keys none k
  of_single u p k = elim (Option-cases (strip (drop p (key u)) k)) [
    | inl e ↦ rw e (sym (apply_in-none u nil p no_keys none k e ∙ unfold apply_in in refl))
    | inr (r, e) ↦ rw e (sym (apply_in-some u nil p no_keys none k r e))
  ]

  pub create_body_correct : CreateCorrect (create_body sm loop from_requests)
  unfolding create_body
  create_body_correct s nil p n res t le e k nk =
      rw (← ap (λ r. result_of r) e) (unfold apply_in in refl)
    where
      result_of : Result (Option Node) → Option Node
      result_of (ok o) = o
      result_of _ = none
  create_body_correct s (cons u nil) p n res t le e k nk =
      let s' = descend sm s (drop p (key u)) in
      let (m, tm) = entry_next n u t.entries.0 in
      let (_, e1) = check-eq-ok (not (sm.is_variable_length s') || is_empty (next u)) _ e in
      let e2 = split-eq-ok (next u) 0 _ (IsTable-Reaches m (next u) tm) e1 in
      let (_, e3) = check-eq-ok (is_none (split (next u) 0).0.opt_leaf) _ e2 in
      from_correct s' (next u) (drop p (key u)) 0 m (value u) (version u) res
        (IsTable-Table m (next u) tm) (IsTable-Reaches m (next u) tm) e3 k nk
      ∙ single (strip (drop p (key u)) k) u
      ∙ of_single u p k
  create_body_correct s (cons u (cons w us)) p n res t le e k nk =
      loop_correct s (cons u (cons w us)) p p n [] res t (omega arith) le
        (Shares-start p (cons u (cons w us))) e k nk

  -- The nibbles of the front key of a sublist, taken as the path.
  front-Shares :
      (start p : ℕ) (seg : List ℕ) (us : UpdateList)
      → is_empty us ≡ false
      → AllUpdates (Shares start p seg) us
      → take (p - start) (drop start (front_key us)) ≡ seg
  front-Shares start p seg nil e h = cc
  front-Shares start p seg (cons u us) e h = h.0

  -- At the end of the keys the count of branches is 0, which the loop asserts it is not.
  ended :
      (s : S) (us : UpdateList) (start n : ℕ) (res : Option Node)
      → AllUpdates (HasLength n) us
      → create_loop_body sm loop from_requests s us start n ≡ ok res
      → ⊥
  unfolding create_loop_body split_into_sublists
  ended s us start n res h e =
      let (r, found, e1) = >>=-eq-ok (split_into_sublists us n) _ e in
      let (positive, _) = check-eq-ok (ltb 0 r.1) _ e1 in
      absurd (omega (arith, ltb→lt _ _ positive, split_ended us n (reset n, 0) r h found))

  -- The keys go on: with two branches or more the node is made here.
  many :
      (us : UpdateList) (p n : ℕ)
      → Table p n us
      → AllUpdates (Reaches p) us
      → (o : Option (List ℕ))
      → after o (at_end none (λ b r. apply_in us p no_keys none (b ∷ r)))
        ≡ after o (apply_in us p no_keys none)
  many us p n t h none = refl
  many us p n t h (some []) = sym (apply_in_short us p no_keys none h)
  many us p n t h (some (b ∷ r)) = refl

  first_path :
      (u : Update) (us : UpdateList) (start p n : ℕ) (seg : List ℕ)
      → Table p n (cons u us)
      → get_or (key u) p 0 < 16
      → AllUpdates (Shares start p seg) (cons u us)
      → take (p - start) (drop start (get_first_path (split (cons u us) p).0)) ≡ seg
  unfolding get_first_path
  first_path u us start p n seg t nb shares =
      let b = get_first_branch (split (cons u us) p).0 in
      front-Shares start p seg _ (masked_sublist (cons u us) p b (first_branch u us p nb)) (
        AllUpdates-map (At (Shares start p seg) p b) (Shares start p seg) (λ w h. h.0) _
          (split-AllUpdates (Shares start p seg) (cons u us) p b shares))

  -- One branch: what the loop makes of its list is what the whole list makes.
  one_branch :
      (us : UpdateList) (p n b : ℕ) (seg k : List ℕ)
      → Table p n us
      → AllUpdates (Reaches p) us
      → (split us p).0.mask b ≡ true
      → (split us p).1 ≡ 1
      → after
          (strip (seg ++ (b ∷ [])) k)
          (apply_in ((split us p).0.sublists b) (p + 1) no_keys none)
        ≡ after (strip seg k) (apply_in us p no_keys none)
  one_branch us p n b seg k t h m one = rw (strip-append) (go (strip seg k))
    where
      go :
          (o : Option (List ℕ))
          → after
              (after o (strip (b ∷ [])))
              (apply_in ((split us p).0.sublists b) (p + 1) no_keys none)
            ≡ after o (apply_in us p no_keys none)
      go none = refl
      go (some []) = sym (apply_in_short us p no_keys none h)
      go (some (c ∷ r)) = elim (Bool-cases (b == c)) [
        | inl e ↦ rw e (sublist-apply_in us p n b no_keys none r t h ∙ rw (==→eq _ _ e))
        | inr e ↦ rw e (
            sym (elim (Bool-cases ((split us p).0.mask c)) [
              | inl mc ↦ absurd (==_ne _ _ e ((split-IsSplit us p).one_if one b c m mc))
              | inr mc ↦ unmasked us p n c no_keys none r t h mc
            ]))
      ]

  going :
      (s : S) (us : UpdateList) (start p n : ℕ) (seg : List ℕ) (res : Option Node)
      → Table p n us
      → start ≤ p
      → p < n
      → AllUpdates (Shares start p seg) us
      → create_loop_body sm loop from_requests s us start p ≡ ok res
      → (k : List ℕ) → All IsNibble k
      → lookup_root res k ≡ after (strip seg k) (apply_in us p no_keys none)
  unfolding create_loop_body
  going s nil start p n seg res t st lt shares e k nk = cc (split-eq-ok nil p _ tt e)
  going s (cons u us) start p n seg res t st lt shares e k nk =
      let h = Table-Reaches p n (cons u us) t lt in
      let r = (split (cons u us) p).0 in
      let c = (split (cons u us) p).1 in
      let b = get_first_branch r in
      let nb = entry_nibble n p u t.entries.0 lt in
      let bare = (split-IsSplit (cons u us) p).no_leaf in
      let e1 = split-eq-ok (cons u us) p _ h e in
      let (positive, e2) = check-eq-ok (ltb 0 c) _ e1 in
      let (_, e3) = check-eq-ok (is_none r.opt_leaf || sm.is_variable_length s) _ e2 in
      elim (Bool-cases (ltb 1 c)) [
        | inl two ↦
            from_correct s (cons u us) (take (p - start) (drop start (get_first_path r))) p n
              (leaf_value r.opt_leaf) (leaf_version r.opt_leaf) res t h (rw two at e3) k nk
            ∙ rw (first_path u us start p n seg t nb shares, bare)
                (many (cons u us) p n t h (strip seg k))
        | inr small ↦
            let one : c ≡ 1 = ground (arith, positive, small) in
            let m = first_branch u us p nb in
            loop_correct (sm.down s b) (r.sublists b) start (p + 1) n (seg ++ (b ∷ [])) res
              (sublist-Table p n b (cons u us) t lt) (omega arith) (omega arith)
              (AllUpdates-map (At (λ w. Shares start p seg w × HasLength n w) p b)
                (Shares start (p + 1) (seg ++ (b ∷ [])))
                (λ w z. Shares-next start p b n seg w st lt z.0.1 z.0.0 z.1) _
                (split-AllUpdates (λ w. Shares start p seg w × HasLength n w) (cons u us) p b
                  (AllUpdates-both _ _ (cons u us) shares (Table-lengths p n (cons u us) t))))
              (rw (small, bare) at e3) k nk
            ∙ one_branch (cons u us) p n b seg k t h m one
      ]

  pub create_loop_body_correct : LoopCorrect (create_loop_body sm loop from_requests)
  create_loop_body_correct s us start p n seg res t st le shares e k nk = elim (ℕ_discrete p n) [
    | yes q ↦ absurd (
        ended s us start p res
          (subst (λ l. AllUpdates (HasLength l) us) (sym q) (Table-lengths p n us t)) e)
    | no q ↦ going s us start p n seg res t st (omega arith) shares e k nk
  ]

module _ {S : Type 0} (sm : StateMachine S) where
  -- The three functions, on any fuel.
  pub create_all :
      (f : ℕ)
      → CreateCorrect (create_new_trie sm f)
        × LoopCorrect (create_loop sm f)
        × FromRequestsCorrect (create_new_trie_from_requests sm f)
  unfolding create_new_trie
  create_all zero = (
    λ s us p n res t le e. cc,
    λ s us start p n seg res t st le h e. cc,
    λ s us path p n leaf ver res t h e. cc,
  )
  create_all (suc f) =
      let (c, l, r) = create_all f in
      (
        create_body_correct sm (create_loop sm f) (create_new_trie_from_requests sm f) l r,
        create_loop_body_correct sm (create_loop sm f) (create_new_trie_from_requests sm f) l r,
        from_requests_body_correct sm (create_new_trie sm f) c,
      )
