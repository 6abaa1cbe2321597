-- ===== src/RootOffsets/Laws.antt =====
-- The ring as a history: a partial map from versions to the offsets of their roots.
use nomad_mpt.Prelude.{
  ℕ, ◌+◌, ◌%◌, ◌^◌, ◌≤◌, ◌<◌, ◌≡◌, refl, ap, ◌∙◌, arith, ◌==◌, leb, ltb, if◌then◌else◌, true, false,
  Bool-cases, inl, inr, none, lt→ltb, ==→eq, length-set, ==_self,
}
use nomad_mpt.RootOffsets.{ChunkOffset, is_invalid, RootOffsets, capacity, root_at, with_next, put}
use nomad_mpt.RootOffsets.Window.{valid, roots, IsRing, root_at-put_self, root_at-put_ne}
use nomad_mpt.RootOffsets.Scan.{valid-none}

-- A store at a version of the window, or at the one behind it.
pub put_lem :
    (bits : ℕ) (r : RootOffsets) (i n : ℕ) (o : ChunkOffset)
    → IsRing bits r
    → r.version_lower_bound ≤ i
    → i < n
    → r.next_version ≤ n
    → n ≤ r.next_version + 1
    → n ≤ r.version_lower_bound + 2 ^ bits
    → n < 2 ^ 64
    → IsRing bits (with_next (put r i o) n)
      × ((v : ℕ)
          → roots (with_next (put r i o) n) v
            ≡ (if v == i then valid o else if v == r.next_version then none else roots r v))
unfolding roots
put_lem bits r i n o h from upto grows by_one near fits =
    let again : (v : ℕ) → root_at (with_next (put r i o) n) v ≡ root_at (put r i o) v =
      λ v. unfold root_at in refl in
    let other : (v : ℕ)
        → (i ≡ v → ⊥)
        → r.version_lower_bound ≤ v
        → v < r.version_lower_bound + 2 ^ bits
        → root_at (with_next (put r i o) n) v ≡ root_at r v =
      λ v ne a b.
        again v
        ∙ root_at-put_ne bits r h.size i v o ne (omega (arith, b, from))
            (omega (arith, a, near, upto)) in
    (
      record {
        size = length-set r.chunks (i % capacity r) o ∙ h.size;
        fits = fits;
        ordered = omega (arith, h.ordered, grows);
        holds = near;
        outside = λ v le less.
            ap is_invalid (
              other v (λ e. absurd (omega (arith, e, le, upto))) (omega (arith, from, upto, le))
                less)
            ∙ h.outside v (omega (arith, le, grows)) less;
      },
      λ v. elim (Bool-cases (v == i)) [
        | inl e ↦
            let at_i : v ≡ i = ==→eq _ _ e in
            let low : leb r.version_lower_bound i ≡ true = ground (arith, from) in
            rw (at_i, ==_self i, low, lt→ltb _ _ upto, again i ∙ root_at-put_self bits r h.size i o)
              refl
        | inr e ↦
            let ne : i ≡ v → ⊥ = λ f. absurd (ground (arith, e, f)) in
            elim (Bool-cases (leb r.version_lower_bound v)) [
              | inr f ↦
                  rw (e, f)
                    (elim (Bool-cases (v == r.next_version)) [
                      | inl g ↦ rw g refl
                      | inr g ↦ rw g refl
                    ])
              | inl f ↦ elim (Bool-cases (ltb v n)) [
                | inr g ↦
                    let out : ltb v r.next_version ≡ false = ground (arith, g, grows) in
                    rw (e, f, g, out)
                      (elim (Bool-cases (v == r.next_version)) [
                        | inl k ↦ rw k refl
                        | inr k ↦ rw k refl
                      ])
                | inl g ↦
                    let same = other v ne (ground (arith, f)) (ground (arith, g, near)) in
                    elim (Bool-cases (v == r.next_version)) [
                      | inl k ↦
                          let last : v ≡ r.next_version = ==→eq _ _ k in
                          rw
                            (
                              e,
                              f,
                              g,
                              k,
                              same,
                              valid-none (root_at r v)
                                  (h.outside v (omega (arith, last)) (ground (arith, g, near))),
                            )
                            refl
                      | inr k ↦
                          let within : ltb v r.next_version ≡ true = ground (arith, g, k, by_one) in
                          rw (e, f, g, k, same, within) refl
                    ]
              ]
            ]
      ],
    )
