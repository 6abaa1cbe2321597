-- ===== src/Nibbles/Runs.antt =====
-- The theorems on views and owners of nibbles at small inputs.
use nomad_mpt.Prelude.{ℕ, ◌≡◌, ◌↔◌, arith, true, some, List, [], ◌∷◌, take, drop, refl}
use nomad_mpt.Nibbles.{
  NibblesView, Nibbles, nibble, view, nibble_size, get_nibble, set_nibble, get, substr, equal,
  three_way, starts_with,
}
use nomad_mpt.Nibbles.{make_view, view_of_nibbles, concat, substr_copy, num_nibbles, piece_size}
use nomad_mpt.Nibbles.Bytes.{get_nibble-set_nibble_ne}
use nomad_mpt.Nibbles.Sequence.{IsView, nibbles, nibbles-substr, nibbles-make_view}
use nomad_mpt.Nibbles.Halves.{halves, get_elem?, get_lem}
use nomad_mpt.Nibbles.Compare.{lex, equal_iff, three_way-lex, starts_with_iff}
use nomad_mpt.Nibbles.Concat.{spell, concat-spell, substr_copy_lem}

-- The nibbles 2, 3, 4 of two bytes.
abbrev some_bytes : List ℕ
some_bytes = 18 ∷ 52 ∷ []

abbrev some_view : NibblesView
some_view = record { buffer = some some_bytes; begin_nibble = 1; end_nibble = 4 }

some_view-IsView : IsView some_view
some_view-IsView = record {
  first = omega arith;
  ordered = omega arith;
  bounded = omega arith;
  held = (omega arith, omega arith, (omega arith, (omega arith, tt)));
}

get_nibble-set_nibble_ne_example :
    get_nibble (set_nibble some_bytes 1 9) 0 ≡ get_nibble some_bytes 0
get_nibble-set_nibble_ne_example =
    get_nibble-set_nibble_ne some_bytes 1 0 9 (omega arith, (omega arith, tt)) (omega arith)
      (omega arith) (λ e. omega arith)

get_lem_example :
    get some_view 1 ≡ get_elem? (take (nibble_size some_view) (drop 1 (halves some_bytes))) 1
get_lem_example = get_lem some_view 1 some_view-IsView

-- The nibbles of the view are 2, 3, 4.
get-some_view : get some_view 1 ≡ some 3
unfolding get nibble_size get_nibble
get-some_view = refl

nibbles-substr_example :
    IsView (substr some_view 1 (some 2))
    × (nibbles (substr some_view 1 (some 2)) ≡ take 2 (drop 1 (nibbles some_view)))
nibbles-substr_example =
    nibbles-substr some_view 1 2 some_view-IsView (unfold nibble_size in omega arith)

equal_iff_example : (equal some_view some_view ≡ true) ↔ (nibbles some_view ≡ nibbles some_view)
equal_iff_example = equal_iff some_view some_view some_view-IsView some_view-IsView

three_way-lex_example : three_way some_view some_view ≡ lex (nibbles some_view) (nibbles some_view)
three_way-lex_example = three_way-lex some_view some_view some_view-IsView some_view-IsView

starts_with_iff_example :
    (starts_with some_view some_view ≡ true)
    ↔ (take (nibble_size some_view) (nibbles some_view) ≡ nibbles some_view)
starts_with_iff_example = starts_with_iff some_view some_view some_view-IsView some_view-IsView

concat-spell_example :
    (r : Nibbles) × (concat (nibble 5 ∷ view some_view ∷ []) ≡ some r)
    × IsView (view_of_nibbles r)
    × (nibbles (view_of_nibbles r) ≡ spell (nibble 5 ∷ view some_view ∷ []))
concat-spell_example =
    concat-spell (nibble 5 ∷ view some_view ∷ []) (omega arith, (some_view-IsView, tt))
      (unfold num_nibbles piece_size nibble_size in omega arith)

-- An owner of the nibbles 1, 2, 3.
abbrev some_nibbles : Nibbles
some_nibbles = record { buffer = some some_bytes; begin_nibble = 0; end_nibble = 3 }

some_nibbles-IsView : IsView (view_of_nibbles some_nibbles)
unfolding view_of_nibbles
some_nibbles-IsView =
    (nibbles-make_view 0 3 some_bytes (omega arith) (omega arith) (omega arith)
      (omega arith, (omega arith, tt))).0

substr_copy_lem_example :
    (r : Nibbles) × (substr_copy some_nibbles 1 (some 2) ≡ some r)
    × (nibbles (view_of_nibbles r) ≡ take 2 (drop 1 (nibbles (view_of_nibbles some_nibbles))))
substr_copy_lem_example =
    substr_copy_lem some_nibbles 1 2 some_nibbles-IsView
      (unfold view_of_nibbles make_view nibble_size in omega arith)
