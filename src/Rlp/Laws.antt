-- ===== src/Rlp/Laws.antt =====
-- `encode_string` and `encode_list` against the reader of RLP.
use nomad_mpt.Prelude.{ℕ, ◌^◌, ◌≤◌, ◌<◌, ◌≡◌, some, List, ◌++◌, length}
use nomad_mpt.Result.{ok}
use nomad_mpt.Rlp.{Span, string_length, encode_string, list_length, encode_list}
use nomad_mpt.Rlp.Decode.{string, list, decode}
use nomad_mpt.Rlp.Spans.{behind}
use nomad_mpt.Rlp.Bytes.{string_bytes, list_bytes, length-string_bytes, length-list_bytes}
use nomad_mpt.Rlp.Write.{encode_string_run, encode_list_run}
use nomad_mpt.Rlp.Read.{decode-string_bytes, decode-list_bytes}

-- Into a span with room for `string_length` bytes, `encode_string` writes that many bytes and returns
-- the span behind them; whatever follows, a reader of RLP takes the string back from them.
pub encode_string_lem :
    (d : Span) (s : List ℕ)
    → length s < 2 ^ 64
    → string_length s ≤ length d.left
    → (bytes : List ℕ) × (encode_string d s ≡ ok (behind d bytes))
      × (length bytes ≡ string_length s)
      × ((rest : List ℕ) → decode (bytes ++ rest) ≡ some (string s, rest))
encode_string_lem d s fits room = (
  string_bytes s,
  encode_string_run d s fits room,
  length-string_bytes s,
  λ rest. decode-string_bytes s rest fits,
)

-- Into a span with room for `list_length` bytes, `encode_list` writes that many bytes and returns the
-- span behind them; whatever follows, a reader of RLP takes the payload of a list back from them.
pub encode_list_lem :
    (d : Span) (s : List ℕ)
    → length s < 2 ^ 64
    → list_length (length s) ≤ length d.left
    → (bytes : List ℕ) × (encode_list d s ≡ ok (behind d bytes))
      × (length bytes ≡ list_length (length s))
      × ((rest : List ℕ) → decode (bytes ++ rest) ≡ some (list s, rest))
encode_list_lem d s fits room = (
  list_bytes s,
  encode_list_run d s fits room,
  length-list_bytes s,
  λ rest. decode-list_bytes s rest fits,
)
