-- ===== src/Merkle/Children.antt =====
-- Both forms of `encode_16_children` write the sixteen slots in the order of the branches.
use nomad_mpt.Prelude.{
  ℕ, zero, suc, ◌+◌, ◌-◌, ◌*◌, ◌≤◌, ◌<◌, ◌≡◌, refl, sym, ap, ◌∙◌, arith, ◌==◌, ==_self,
  if◌then◌else◌, Bool-cases, Option-cases, true, false, inl, inr, Option, none, some, List, [], ◌∷◌,
  ◌++◌, length, All, replicate, length-append, length-drop, append_assoc, append-nil,
  length-replicate,
}
use nomad_mpt.Result.{Result, ok, ◌>>=◌}
use nomad_mpt.Rlp.{Span}
use nomad_mpt.Rlp.Spans.{behind, behind-behind, assign-subspan, le→leb}
use nomad_mpt.Merkle.{
  ChildEntry, ChildData, TrieNode, is_valid, child_data_view, fill_until, put_children, fill_rest,
  put_entries, encode_empty_string, encode_16_children, encode_16_entries,
}
use nomad_mpt.Merkle.Reference.{slot_bytes, length-slot_bytes, put_child_run}
use native.Mathlib.Nat.{add-zero, suc-add}

abbrev pub entry_bytes : Option (List ℕ) → List ℕ
entry_bytes none = 0x80 ∷ []
entry_bytes (some hash) = slot_bytes hash

-- The slots of the branches from `i` on, `k` of them.
abbrev pub slots_bytes : List ChildEntry → ℕ → ℕ → List ℕ
slots_bytes entries zero i = []
slots_bytes entries (suc k) i =
    entry_bytes (child_data_view i entries) ++ slots_bytes entries k (i + 1)

abbrev pub IsSmall : ChildEntry → Type 0
IsSmall e = length e.hash ≤ 32

pub child_data_view-small :
    (entries : List ChildEntry) (i : ℕ) (hash : List ℕ)
    → All IsSmall entries
    → child_data_view i entries ≡ some hash
    → length hash ≤ 32
unfolding child_data_view
child_data_view-small [] i hash small e = cc
child_data_view-small (c ∷ cs) i hash small e = elim (Bool-cases (c.branch == i)) [
  | inl same ↦
      let here : some c.hash ≡ some hash = rw same at e in
      let equal : c.hash ≡ hash = cc in omega (arith, ap length equal, small.0)
  | inr other ↦ child_data_view-small cs i hash small.1 (rw other at e)
]

length-entry_bytes :
    (entries : List ChildEntry) (i : ℕ)
    → All IsSmall entries
    → length (entry_bytes (child_data_view i entries)) ≤ 33
length-entry_bytes entries i small = elim (Option-cases (child_data_view i entries)) [
  | inl e ↦ rw e (omega arith)
  | inr (h, e) ↦ rw e (length-slot_bytes h (child_data_view-small entries i h small e))
]

pub length-slots_bytes :
    (entries : List ChildEntry) (k i : ℕ)
    → All IsSmall entries
    → length (slots_bytes entries k i) ≤ 33 * k
length-slots_bytes entries zero i small = omega arith
length-slots_bytes entries (suc k) i small = omega (
  arith,
  length-append (entry_bytes (child_data_view i entries)) (slots_bytes entries k (i + 1)),
  length-entry_bytes entries i small,
  length-slots_bytes entries k (i + 1) small,
)

pub encode_empty_string_run :
    (d : Span) → 1 ≤ length d.left → encode_empty_string d ≡ ok (behind d (0x80 ∷ []))
unfolding encode_empty_string
encode_empty_string_run d h = assign-subspan 0x80 d h

put_entries_step :
    (entries : List ChildEntry) (k i : ℕ) (d : Span)
    → All IsSmall entries
    → 33 ≤ length d.left
    → put_entries entries (suc k) i d
      ≡ put_entries entries k (i + 1) (behind d (entry_bytes (child_data_view i entries)))
unfolding put_entries
put_entries_step entries k i d small room = elim (Option-cases (child_data_view i entries)) [
  | inl e ↦ rw (put_entries, e, encode_empty_string_run d (omega arith))
  | inr (h, e) ↦
      let fits = child_data_view-small entries i h small e in
      rw (put_entries, e, le→leb _ _ fits, put_child_run d h fits room)
]

put_entries_run :
    (entries : List ChildEntry) (k i : ℕ) (d : Span)
    → All IsSmall entries
    → 33 * k ≤ length d.left
    → put_entries entries k i d ≡ ok (behind d (slots_bytes entries k i))
put_entries_run entries zero i d small room = unfold put_entries in rw append-nil
put_entries_run entries (suc k) i d small room =
    let bytes = entry_bytes (child_data_view i entries) in
    let left : 33 * k ≤ length (behind d bytes).left =
      omega (arith, length-drop (length bytes) d.left, length-entry_bytes entries i small) in
    put_entries_step entries k i d small (omega arith)
    ∙ put_entries_run entries k (i + 1) (behind d bytes) small left
    ∙ ap ok (behind-behind d bytes (slots_bytes entries k (i + 1)))

pub encode_16_entries_run :
    (n : TrieNode) (d : Span)
    → All IsSmall n.entries
    → 528 ≤ length d.left
    → encode_16_entries n d ≡ ok (behind d (slots_bytes n.entries 16 0))
unfolding encode_16_entries
encode_16_entries_run n d small room = put_entries_run n.entries 16 0 d small room

-- The entries of the children that are valid.
abbrev pub entry_of : ChildData → ChildEntry
entry_of c = record { branch = c.branch; hash = c.hash }

abbrev pub entries_of : List ChildData → List ChildEntry
entries_of [] = []
entries_of (c ∷ cs) = if is_valid c then entry_of c ∷ entries_of cs else entries_of cs

-- The branches ascend from `i` on, and the data fits.
abbrev pub IsAscending : ℕ → List ChildEntry → Type 0
IsAscending i [] = Unit {0}
IsAscending i (e ∷ es) =
    (i ≤ e.branch) × (e.branch < 16) × IsSmall e × IsAscending (e.branch + 1) es

pub IsAscending-IsSmall : (i : ℕ) (es : List ChildEntry) → IsAscending i es → All IsSmall es
IsAscending-IsSmall i [] h = tt
IsAscending-IsSmall i (e ∷ es) h = (h.2, IsAscending-IsSmall (e.branch + 1) es h.3)

-- No entry stands before the first branch.
pub child_data_view_below :
    (i j : ℕ) (es : List ChildEntry) → IsAscending i es → j < i → child_data_view j es ≡ none
unfolding child_data_view
child_data_view_below i j [] h lt = refl
child_data_view_below i j (e ∷ es) h lt =
    let other : (e.branch == j) ≡ false = ground (arith, h.0) in
    rw other (child_data_view_below (e.branch + 1) j es h.3 (omega (arith, h.0)))

slots_gap :
    (es : List ChildEntry) (g k i : ℕ)
    → ((j : ℕ) → j < i + g → child_data_view j es ≡ none)
    → slots_bytes es (g + k) i ≡ replicate g 0x80 ++ slots_bytes es k (i + g)
slots_gap es zero k i h = let a : 0 + k ≡ k = omega arith in rw (a, add-zero)
slots_gap es (suc g) k i h =
    let next : i + 1 + g ≡ i + suc g = omega arith in
    rw (suc-add, h i (omega arith))
      (ap (◌∷◌ 0x80) (rw (← next) (slots_gap es g k (i + 1) (λ j lt. h j (omega arith)))))

slots_cong :
    (es es' : List ChildEntry) (k i : ℕ)
    → ((j : ℕ) → i ≤ j → child_data_view j es ≡ child_data_view j es')
    → slots_bytes es k i ≡ slots_bytes es' k i
slots_cong es es' zero i h = refl
slots_cong es es' (suc k) i h =
    rw (h i (omega arith), slots_cong es es' k (i + 1) (λ j le. h j (omega arith)))

fill_until_run :
    (fuel g i : ℕ) (d : Span)
    → g < fuel
    → g ≤ length d.left
    → fill_until fuel (i + g) i d ≡ ok (i + g, behind d (replicate g 0x80))
unfolding fill_until
fill_until_run zero g i d lt room = absurd (omega arith)
fill_until_run (suc fuel) zero i d lt room = rw (add-zero, ==_self, append-nil)
fill_until_run (suc fuel) (suc g) i d lt room =
    let other : (i + suc g == i) ≡ false = ground arith in
    let next : i + 1 + g ≡ i + suc g = omega arith in
    let d' = behind d (0x80 ∷ []) in
    let rest =
      fill_until_run fuel g (i + 1) d' (omega arith) (omega (arith, length-drop 1 d.left)) in
    rw (other, encode_empty_string_run d (omega arith), ← next)
      (rest ∙ ap (λ (s : Span). ok (i + 1 + g, s)) (behind-behind d (0x80 ∷ []) (replicate g 0x80)))

fill_rest_run :
    (k i : ℕ) (d : Span) → k ≤ length d.left → fill_rest k d ≡ ok (behind d (slots_bytes [] k i))
unfolding fill_rest child_data_view
fill_rest_run zero i d room = rw append-nil
fill_rest_run (suc k) i d room = rw (encode_empty_string_run d (omega arith)) (
    fill_rest_run k (i + 1) (behind d (0x80 ∷ [])) (omega (arith, length-drop 1 d.left))
    ∙ ap ok (behind-behind d (0x80 ∷ []) (slots_bytes [] k (i + 1))))

-- The slots up to an entry, its own and those behind it.
slots_of_entry :
    (e : ChildEntry) (es : List ChildEntry) (g k i : ℕ)
    → e.branch ≡ i + g
    → IsAscending (e.branch + 1) es
    → slots_bytes (e ∷ es) (g + suc k) i
      ≡ replicate g 0x80 ++ (slot_bytes e.hash ++ slots_bytes es k (i + g + 1))
unfolding child_data_view
slots_of_entry e es g k i at asc =
    let below : (j : ℕ) → j < i + g → child_data_view j (e ∷ es) ≡ none = λ j lt.
      let other : (e.branch == j) ≡ false = ground (arith, at) in
      rw other (child_data_view_below (e.branch + 1) j es asc (omega (arith, at))) in
    let here : (e.branch == i + g) ≡ true = ground (arith, at) in
    slots_gap (e ∷ es) g (suc k) i below
    ∙ rw here (
        ap (λ (t : List ℕ). replicate g 0x80 ++ (slot_bytes e.hash ++ t))
          (slots_cong (e ∷ es) es k (i + g + 1)
            (λ j le. let other : (e.branch == j) ≡ false = ground (arith, at) in rw other)))

-- The loop and the fill behind it.
abbrev filled : List ChildData → ℕ → Span → Result Span
filled cs i d = put_children cs i d >>= (λ at. fill_rest (16 - at.0) at.1)

filled_invalid :
    (c : ChildData) (cs : List ChildData) (i : ℕ) (d : Span)
    → is_valid c ≡ false
    → filled (c ∷ cs) i d ≡ filled cs i d
unfolding put_children
filled_invalid c cs i d e = rw (e, put_children)

filled_valid :
    (c : ChildData) (cs : List ChildData) (i g : ℕ) (d : Span)
    → is_valid c ≡ true
    → c.branch ≡ i + g
    → c.branch < 16
    → length c.hash ≤ 32
    → g + 33 ≤ length d.left
    → filled (c ∷ cs) i d ≡ filled cs (i + g + 1) (behind d (replicate g 0x80 ++ slot_bytes c.hash))
unfolding put_children
filled_valid c cs i g d e at small fits room =
    let d' = behind d (replicate g 0x80) in
    let gap = length-replicate {A = ℕ} g 0x80 in
    let left : 33 ≤ length d'.left =
      omega (arith, length-drop (length {A = ℕ} (replicate g 0x80)) d.left, gap) in
    rw (
      put_children,
      e,
      at,
      fill_until_run 17 g i d (omega (arith, at)) (omega arith),
      put_child_run d' c.hash fits left,
      behind-behind,
    )

filled_run :
    (cs : List ChildData) (i : ℕ) (d : Span)
    → i ≤ 16
    → IsAscending i (entries_of cs)
    → 33 * (16 - i) ≤ length d.left
    → filled cs i d ≡ ok (behind d (slots_bytes (entries_of cs) (16 - i) i))
filled_run [] i d le asc room = unfold put_children in fill_rest_run (16 - i) i d (omega arith)
filled_run (c ∷ cs) i d le asc room = elim (Bool-cases (is_valid c)) [
  | inr e ↦ filled_invalid c cs i d e ∙ rw e (filled_run cs i d le (rw e at asc) room)
  | inl e ↦
      let (from, below, small, rest) : IsAscending i (entry_of c ∷ entries_of cs) = rw e at asc in
      let g = c.branch - i in
      let at : c.branch ≡ i + g = omega arith in
      let rounds : 16 - i ≡ g + suc (16 - (i + g + 1)) = omega (arith, at) in
      let bytes = replicate g 0x80 ++ slot_bytes c.hash in
      let gap = length-append (replicate g 0x80) (slot_bytes c.hash) in
      let left : 33 * (16 - (i + g + 1)) ≤ length (behind d bytes).left = omega (
        arith,
        length-drop (length bytes) d.left,
        gap,
        length-replicate {A = ℕ} g 0x80,
        length-slot_bytes c.hash small,
        at,
        below,
      ) in
      let rest' : IsAscending (i + g + 1) (entries_of cs) = rw (← at) rest in
      filled_valid c cs i g d e at below small (omega (arith, at, below))
      ∙ filled_run cs (i + g + 1) (behind d bytes) (omega (arith, at, below)) rest' left
      ∙ ap ok (behind-behind d bytes (slots_bytes (entries_of cs) (16 - (i + g + 1)) (i + g + 1)))
      ∙ rw (e, rounds)
          (ap (λ (t : List ℕ). ok (behind d t))
            (append_assoc (replicate g 0x80) (slot_bytes c.hash) _
              ∙ sym (slots_of_entry (entry_of c) (entries_of cs) g (16 - (i + g + 1)) i at rest)))
]

pub encode_16_children_run :
    (cs : List ChildData) (d : Span)
    → IsAscending 0 (entries_of cs)
    → 528 ≤ length d.left
    → encode_16_children cs d ≡ ok (behind d (slots_bytes (entries_of cs) 16 0))
unfolding encode_16_children
encode_16_children_run cs d asc room = filled_run cs 0 d (omega arith) asc (omega arith)

-- Given children that are valid in the order of their branches, with at most 32 bytes of data each, and a
-- span with room for 528 bytes, the loop over the children writes what the loop over the mask of a node
-- with these entries writes.
pub encode_16_children_lem :
    (cs : List ChildData) (n : TrieNode) (d : Span)
    → IsAscending 0 (entries_of cs)
    → n.entries ≡ entries_of cs
    → 528 ≤ length d.left
    → (written : Span) × (encode_16_children cs d ≡ ok written)
      × (encode_16_entries n d ≡ ok written)
encode_16_children_lem cs n d asc same room = (
  behind d (slots_bytes (entries_of cs) 16 0),
  encode_16_children_run cs d asc room,
  encode_16_entries_run n d (rw same (IsAscending-IsSmall 0 (entries_of cs) asc)) room ∙ rw same,
)
