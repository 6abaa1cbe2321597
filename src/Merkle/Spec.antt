-- ===== src/Merkle/Spec.antt =====
-- The tries of Ethereum as RLP items, and the commitment to them: an item is named by itself if it is
-- shorter than 32 bytes and by its hash otherwise.
use nomad_mpt.Prelude.{
  ℕ, zero, suc, ◌+◌, ◌%◌, ◌==◌, leb, if◌then◌else◌, Bool, true, false, List, [], ◌∷◌, ◌++◌, length,
}
use nomad_mpt.Rlp.Bytes.{string_bytes, list_bytes}
use nomad_mpt.CompactEncode.Laws.{prefix}
use nomad_mpt.CompactEncode.Pack.{pack}
use nomad_mpt.Merkle.{Keccak}

mutual
  pub data Rlp : Type 0 where
    str : (bytes : List ℕ) → Rlp
    lst : (items : Rlps) → Rlp

  pub data Rlps : Type 0 where
    no_item : Rlps
    item : Rlp → Rlps → Rlps

unfoldable mutual
  pub encode : Rlp → List ℕ
  encode (str bytes) = string_bytes bytes
  encode (lst items) = list_bytes (encode_all items)

  pub encode_all : Rlps → List ℕ
  encode_all no_item = []
  encode_all (item i is) = encode i ++ encode_all is

-- A leaf, or a branch of sixteen subtries and a value behind a path: an extension, if there is a path.
mutual
  pub data Trie : Type 0 where
    leaf : (path : List ℕ) (value : List ℕ) → Trie
    branch : (path : List ℕ) (subtries : Subtries) (value : List ℕ) → Trie

  pub data Subtries : Type 0 where
    no_subtrie : Subtries
    subtrie : (branch : ℕ) → Trie → Subtries → Subtries

-- The hex-prefix encoding of a path.
abbrev pub hex_prefix : List ℕ → Bool → List ℕ
hex_prefix path terminating = pack (prefix terminating (length path % 2 == 0) ++ path)

-- What names an item in its parent.
unfoldable pub capped : Keccak → Rlp → Rlp
capped keccak256 i = if leb 32 (length (encode i)) then str (keccak256 (encode i)) else i

-- The two items of a leaf or an extension.
abbrev pub pair : Rlp → Rlp → Rlp
pair a b = lst (item a (item b no_item))

abbrev pub behind_path : Keccak → List ℕ → Rlp → Rlp
behind_path keccak256 [] i = i
behind_path keccak256 (b ∷ path) i = pair (str (hex_prefix (b ∷ path) false)) (capped keccak256 i)

-- The items of the branches from `i` on, with the rounds that are left, and the value behind them:
-- `named b` is the item of the subtrie at `b`.
abbrev pub slots : (ℕ → Rlp) → ℕ → ℕ → List ℕ → Rlps
slots named zero i value = item (str value) no_item
slots named (suc k) i value = item (named i) (slots named k (i + 1) value)

unfoldable mutual
  pub item_of : Keccak → Trie → Rlp
  item_of keccak256 (leaf path value) = pair (str (hex_prefix path true)) (str value)
  item_of keccak256 (branch path subtries value) =
      behind_path keccak256 path (lst (slots (named keccak256 subtries) 16 0 value))

  pub named : Keccak → Subtries → ℕ → Rlp
  named keccak256 no_subtrie i = str []
  named keccak256 (subtrie b t ts) i =
      if b == i then capped keccak256 (item_of keccak256 t) else named keccak256 ts i

unfoldable pub reference : Keccak → Trie → List ℕ
reference keccak256 t =
    let bytes = encode (item_of keccak256 t) in
    if leb 32 (length bytes) then keccak256 bytes else bytes

unfoldable pub root_hash : Keccak → Trie → List ℕ
root_hash keccak256 t = keccak256 (encode (item_of keccak256 t))
