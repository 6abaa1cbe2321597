-- ===== src/Merkle/Reference.antt =====
-- References of nodes, and how a reference stands in the item of the parent.
use nomad_mpt.Prelude.{
  ℕ, ◌≤◌, ◌≡◌, arith, ltb, leb, if◌then◌else◌, Bool-cases, true, false, inl, inr, List, length,
}
use nomad_mpt.Result.{ok}
use nomad_mpt.Rlp.{Span, string_length}
use nomad_mpt.Rlp.Bytes.{string_bytes, length-string_bytes, not_leb}
use nomad_mpt.Rlp.Spans.{behind, store-subspan}
use nomad_mpt.Rlp.Write.{encode_string_run}
use nomad_mpt.Merkle.{Keccak, to_node_reference, copy_raw, put_child}
use nomad_mpt.Merkle.Spec.{Rlp, encode, capped}

-- What the code relies on of `keccak256`: it writes 32 bytes.
abbrev pub IsHash : Keccak → Type 0
IsHash keccak256 = (bytes : List ℕ) → length (keccak256 bytes) ≡ 32

-- A reference as it stands in the item of the parent.
abbrev pub slot_bytes : List ℕ → List ℕ
slot_bytes r = if ltb (length r) 32 then r else string_bytes r

pub length-slot_bytes : (r : List ℕ) → length r ≤ 32 → length (slot_bytes r) ≤ 33
unfolding string_length
length-slot_bytes r h = elim (Bool-cases (ltb (length r) 32)) [
  | inl e ↦ rw e (omega arith)
  | inr e ↦ rw e (short_string (length-string_bytes r))
]
  where
    short_string : length (string_bytes r) ≡ string_length r → length (string_bytes r) ≤ 33
    short_string same = ground arith

module _ (keccak256 : Keccak) (hash : IsHash keccak256) (i : Rlp) where
  pub length-reference-le : length (to_node_reference keccak256 (encode i)) ≤ 32
  unfolding to_node_reference
  length-reference-le = elim (Bool-cases (leb 32 (length (encode i)))) [
    | inl e ↦ rw e (omega (arith, hash (encode i)))
    | inr e ↦ rw e (omega (arith, not_leb _ _ e))
  ]

  -- The reference in its parent is the RLP of the capped item.
  pub slot_bytes-reference :
      slot_bytes (to_node_reference keccak256 (encode i)) ≡ encode (capped keccak256 i)
  unfolding to_node_reference capped encode
  slot_bytes-reference = elim (Bool-cases (leb 32 (length (encode i)))) [
    | inl e ↦
        let long : ltb (length (keccak256 (encode i))) 32 ≡ false = rw (hash (encode i)) in
        rw (e, long)
    | inr e ↦
        let short : ltb (length (encode i)) 32 ≡ true = ground (arith, not_leb _ _ e) in
        rw (e, short)
  ]

pub copy_raw_run :
    (d : Span) (bytes : List ℕ)
    → length bytes ≤ length d.left
    → copy_raw d bytes ≡ ok (behind d bytes)
unfolding copy_raw
copy_raw_run d bytes h = store-subspan bytes d h

pub put_child_run :
    (d : Span) (r : List ℕ)
    → length r ≤ 32
    → 33 ≤ length d.left
    → put_child d r ≡ ok (behind d (slot_bytes r))
unfolding put_child
put_child_run d r small room = elim (Bool-cases (ltb (length r) 32)) [
  | inl e ↦ rw e (copy_raw_run d r (omega arith))
  | inr e ↦
      let size = rw e at (length-slot_bytes r small) in
      rw e (encode_string_run d r (omega arith) (omega (arith, size, length-string_bytes r)))
]
