-- ===== src/Merkle/Pieces.antt =====
-- `encode_two_pieces` gives the reference of a leaf or of an extension.
use nomad_mpt.Prelude.{
  ℕ, ◌+◌, ◌/◌, ◌%◌, ◌≤◌, ◌<◌, ◌^◌, ◌≡◌, refl, sym, ap, ◌∙◌, arith, leb, ◌==◌, ==_self,
  if◌then◌else◌, Bool, ◌||◌, true, false, some, List, [], ◌++◌, length, replicate, drop, drop_all,
  length-append, length-drop, length-replicate, append-nil,
}
use nomad_mpt.Result.{ok, ◌>>=◌, check, ◌>>◌}
use nomad_mpt.Nibbles.{NibblesView, nibble_size, data_size}
use nomad_mpt.Nibbles.Sequence.{IsView, nibbles, length-run, bytes_of}
use nomad_mpt.Nibbles.Concat.{replicate-IsByte}
use nomad_mpt.CompactEncode.{compact_encode}
use nomad_mpt.CompactEncode.Laws.{prefix}
use nomad_mpt.CompactEncode.Pack.{pack, compact_encode-pack, encoded_size}
use nomad_mpt.Rlp.{Span, encode_string, string_length, list_length, encode_list}
use nomad_mpt.Rlp.Bytes.{
  string_bytes, list_bytes, length-string_bytes, length-list_bytes, string_length-le,
}
use nomad_mpt.Rlp.Spans.{behind, behind-behind, le→leb}
use nomad_mpt.Rlp.Write.{encode_string_run, encode_list_run}
use nomad_mpt.Merkle.{Keccak, to_node_reference, buffer, whole, copy_raw, encode_two_pieces}
use nomad_mpt.Merkle.Spec.{Rlp, str, encode, encode_all, capped, pair, hex_prefix}
use nomad_mpt.Merkle.Reference.{
  IsHash, slot_bytes, length-reference-le, slot_bytes-reference, copy_raw_run,
}

-- A buffer that was filled to its end.
pub whole_full :
    (n : ℕ) (bytes : List ℕ) → length bytes ≡ n → whole (behind (buffer n) bytes) ≡ bytes
whole_full n bytes e =
    let rest : drop {A = ℕ} (length bytes) (replicate n 0) ≡ [] =
      drop_all {A = ℕ} (replicate n 0) (length bytes)
        (omega (arith, e, length-replicate {A = ℕ} n 0)) in
    rw rest (append-nil bytes)

pub list_whole :
    (s : List ℕ)
    → length s < 2 ^ 64
    → (encode_list (buffer (list_length (length s))) s >>= (λ rlp. ok (whole rlp)))
      ≡ ok (list_bytes s)
list_whole s fits =
    let n = list_length (length s) in
    rw (encode_list_run (buffer n) s fits (omega (arith, length-replicate {A = ℕ} n 0)))
      (ap ok (whole_full n (list_bytes s) (length-list_bytes s)))

-- The second piece as it is written.
abbrev second_bytes : Bool → List ℕ → List ℕ
second_bytes need second = if need then string_bytes second else second

second_run :
    (need : Bool) (d : Span) (second : List ℕ)
    → length second < 2 ^ 32
    → length (second_bytes need second) ≤ length d.left
    → (if need then encode_string d second else copy_raw d second)
      ≡ ok (behind d (second_bytes need second))
second_run true d second fits room =
    encode_string_run d second (omega arith) (omega (arith, length-string_bytes second, room))
second_run false d second fits room = copy_raw_run d second room

second_length :
    (need : Bool) (second : List ℕ)
    → (if need then string_length second else length second) ≡ length (second_bytes need second)
second_length true second = sym (length-string_bytes second)
second_length false second = refl

length-second_bytes :
    (need : Bool) (second : List ℕ)
    → length second < 2 ^ 32
    → length (second_bytes need second) ≤ 2 ^ 33
length-second_bytes true second h =
    omega (arith, length-string_bytes second, string_length-le second)
length-second_bytes false second h = omega arith

first_fits : (v : NibblesView) → IsView v → data_size v ≤ 32 → nibble_size v / 2 + 1 ≤ 33
unfolding data_size nibble_size
first_fits v h small = ground (arith, h.ordered)

length-hex_prefix :
    (v : NibblesView) (terminating : Bool)
    → IsView v
    → data_size v ≤ 32
    → (compact_encode (replicate 33 0) v terminating ≡ some (hex_prefix (nibbles v) terminating))
      × (length (hex_prefix (nibbles v) terminating) ≤ 33)
length-hex_prefix v terminating h small =
    let n = length-run (bytes_of v.buffer) v.begin_nibble (nibble_size v) in
    let fits = first_fits v h small in
    let done = compact_encode-pack (replicate 33 0) v terminating h (replicate-IsByte 33) fits in
    let (b, e, size) = encoded_size (replicate 33 0) v terminating h fits in
    let same : b ≡ pack (prefix terminating (nibble_size v % 2 == 0) ++ nibbles v) = cc (done, e) in
    rw n (done, omega (arith, ap length same, size, fits))

-- The list that ends `encode_two_pieces`, once its buffer is full.
list_run :
    (keccak256 : Keccak) (bytes : List ℕ)
    → length bytes < 2 ^ 64
    → ((check (length (behind (buffer (length bytes)) bytes).passed == length bytes)
          >> encode_list
              (buffer (list_length (length bytes)))
              (whole (behind (buffer (length bytes)) bytes)))
        >>= (λ rlp. ok (to_node_reference keccak256 (whole rlp))))
      ≡ ok (to_node_reference keccak256 (list_bytes bytes))
list_run keccak256 bytes fits =
    let n = list_length (length bytes) in
    rw (==_self, whole_full (length bytes) bytes refl)
      (rw (encode_list_run (buffer n) bytes fits (omega (arith, length-replicate {A = ℕ} n 0))) (
        ap (λ (w : List ℕ). ok (to_node_reference keccak256 w))
          (whole_full n (list_bytes bytes) (length-list_bytes bytes))))

pieces_run :
    (n : ℕ) (first second : List ℕ) (need : Bool)
    → n ≡ length (string_bytes first ++ second_bytes need second)
    → length first ≤ 33
    → length second < 2 ^ 32
    → (encode_string (buffer n) first
        >>= (λ result. if need then encode_string result second else copy_raw result second))
      ≡ ok (behind (buffer n) (string_bytes first ++ second_bytes need second))
pieces_run n first second need size short fits =
    let a = string_bytes first in
    let b = second_bytes need second in
    let la = length-string_bytes first in
    let joined = length-append a b in
    let room : string_length first ≤ length (replicate {A = ℕ} n 0) =
      omega (arith, length-replicate {A = ℕ} n 0, la) in
    let d = behind (buffer n) a in
    let room' : length b ≤ length d.left = omega (
      arith,
      length-replicate {A = ℕ} n 0,
      length-drop (length a) (replicate {A = ℕ} n 0),
      joined,
      size,
    ) in
    rw (encode_string_run (buffer n) first (omega (arith, short)) room)
      (second_run need d second fits room' ∙ ap ok (behind-behind (buffer n) a b))

two_pieces_run :
    (keccak256 : Keccak) (v : NibblesView) (second : List ℕ) (terminating : Bool)
    → IsView v
    → data_size v ≤ 32
    → length second < 2 ^ 32
    → encode_two_pieces keccak256 v second terminating
      ≡ ok (
          to_node_reference keccak256 (
            list_bytes (
              string_bytes (hex_prefix (nibbles v) terminating)
              ++ second_bytes (terminating || leb 32 (length second)) second)))
unfolding encode_two_pieces
two_pieces_run keccak256 v second terminating h small fits =
    let need = terminating || leb 32 (length second) in
    let first = hex_prefix (nibbles v) terminating in
    let (done, short) = length-hex_prefix v terminating h small in
    let bytes = string_bytes first ++ second_bytes need second in
    let joined = length-append (string_bytes first) (second_bytes need second) in
    let size : string_length first + (if need then string_length second else length second)
        ≡ length bytes =
      omega (arith, joined, length-string_bytes first, second_length need second) in
    let bound : length bytes < 2 ^ 64 = omega (
      arith,
      joined,
      length-string_bytes first,
      string_length-le first,
      short,
      length-second_bytes need second fits,
    ) in
    rw
      (
        le→leb _ _ small,
        done,
        le→leb _ _ short,
        size,
        pieces_run (length bytes) first second need refl short fits,
      )
      (list_run keccak256 bytes bound)

module _ (keccak256 : Keccak) (v : NibblesView) (h : IsView v) (small : data_size v ≤ 32) where
  -- A leaf: both pieces are strings.
  pub encode_two_pieces-leaf :
      (second : List ℕ)
      → length second < 2 ^ 32
      → encode_two_pieces keccak256 v second true
        ≡ ok (
            to_node_reference keccak256
              (encode (pair (str (hex_prefix (nibbles v) true)) (str second))))
  unfolding encode encode_all
  encode_two_pieces-leaf second fits =
      two_pieces_run keccak256 v second true h small fits ∙ rw (append-nil)

  -- An extension: the second piece is the reference of the branch below.
  pub encode_two_pieces-extension :
      (hash : IsHash keccak256) (i : Rlp)
      → encode_two_pieces keccak256 v (to_node_reference keccak256 (encode i)) false
        ≡ ok (
            to_node_reference keccak256
              (encode (pair (str (hex_prefix (nibbles v) false)) (capped keccak256 i))))
  unfolding encode encode_all
  encode_two_pieces-extension hash i =
      let r = to_node_reference keccak256 (encode i) in
      let fits = length-reference-le keccak256 hash i in
      two_pieces_run keccak256 v r false h small (omega (arith, fits))
      ∙ ap
          (λ (t : List ℕ). ok (
            to_node_reference keccak256
              (list_bytes (string_bytes (hex_prefix (nibbles v) false) ++ t))))
          (flipped r ∙ slot_bytes-reference keccak256 hash i ∙ sym (append-nil _))
    where
      flipped : (s : List ℕ) → second_bytes (leb 32 (length s)) s ≡ slot_bytes s
      flipped s = ground arith
