-- ===== src/CompactEncode/Runs.antt =====
-- The encodings that the description of the trie gives as examples, and the theorem at one of them.
use nomad_mpt.Prelude.{
  ℕ, ◌+◌, ◌*◌, ◌/◌, ◌%◌, ◌==◌, ◌≡◌, refl, arith, true, some, List, [], ◌∷◌, ◌++◌, length,
}
use nomad_mpt.Nibbles.{NibblesView, nibble_size, get_nibble, set_nibble, get}
use nomad_mpt.Nibbles.Sequence.{IsView, nibbles, run}
use nomad_mpt.CompactEncode.{compact_encode, encode_loop}
use nomad_mpt.CompactEncode.Laws.{prefix, compact_encode_lem}

-- The nibbles f, 1, c, b, 8 of an account's path.
abbrev path : NibblesView
path = record { buffer = some (15 ∷ 28 ∷ 184 ∷ []); begin_nibble = 1; end_nibble = 6 }

path-IsView : IsView path
path-IsView = record {
  first = omega arith;
  ordered = omega arith;
  bounded = omega arith;
  held = (omega arith, omega arith, (omega arith, (omega arith, (omega arith, tt))));
}

abbrev buffer : List ℕ
buffer = 0 ∷ 0 ∷ 0 ∷ 0 ∷ []

compact_encode_lem_example :
    (bytes : List ℕ) × (compact_encode buffer path true ≡ some bytes)
    × (length bytes ≡ nibble_size path / 2 + 1)
    × (run bytes 0 (2 * (nibble_size path / 2 + 1))
        ≡ prefix true (nibble_size path % 2 == 0) ++ nibbles path)
compact_encode_lem_example =
    compact_encode_lem buffer path true path-IsView
      (omega arith, (omega arith, (omega arith, (omega arith, tt))))
      (unfold nibble_size in omega arith)

-- 3f 1c b8
leaf_path : compact_encode buffer path true ≡ some (63 ∷ 28 ∷ 184 ∷ [])
unfolding compact_encode encode_loop nibble_size get get_nibble set_nibble
leaf_path = refl
