-- ===== src/Rlp.antt =====
-- depend/monad/category/core/rlp/encode.hpp: strings and lists in RLP, written into a span.
pub mod Decode
pub mod Spans
pub mod Length
pub mod Bytes
pub mod Write
pub mod Read
pub mod Laws
pub mod Runs
use nomad_mpt.Prelude.{
  ℕ, zero, suc, ◌+◌, ◌-◌, ◌*◌, ◌/◌, ◌%◌, ◌^◌, ◌==◌, ltb, leb, if◌then◌else◌, not, ◌&&◌, List, [],
  ◌∷◌, ◌++◌, length, get_or, take, drop,
}
use nomad_mpt.Result.{Result, ok, ◌>>=◌, check, ◌>>◌}

-- A span that is written from the front: what `subspan` has passed, and what is left of it. An access
-- outside the span is undefined in C++ and `aborted` here.
pub record Span : Type 0 where
  pub passed : List ℕ
  pub left : List ℕ

-- `d[0] = b`
unfoldable pub assign : ℕ → Span → Result Span
assign b d =
    check (leb 1 (length d.left)) >> ok (record { passed = d.passed; left = b ∷ drop 1 d.left })

-- `memcpy(d.data(), bytes, size)`, behind the test of the size
unfoldable pub store : List ℕ → Span → Result Span
store bytes d =
    check (leb (length bytes) (length d.left))
    >> ok (record { passed = d.passed; left = bytes ++ drop (length bytes) d.left })

-- `d = d.subspan(n)`
unfoldable pub subspan : ℕ → Span → Result Span
subspan n d =
    check (leb n (length d.left))
    >> ok (record { passed = d.passed ++ take n d.left; left = drop n d.left })

-- `std::countl_zero` of a number of `w` bits
unfoldable pub countl_zero : ℕ → ℕ → ℕ
countl_zero zero n = 0
countl_zero (suc w) n = if ltb n (2 ^ w) then suc (countl_zero w n) else 0

-- The bytes of the number, the most significant first: `byteswap` and a store on a little-endian
-- machine.
unfoldable pub big_endian : ℕ → ℕ → List ℕ
big_endian zero n = []
big_endian (suc k) n = big_endian k (n / 256) ++ (n % 256 ∷ [])

unfoldable pub length_length : ℕ → ℕ
length_length n = 8 - countl_zero 64 n / 8

unfoldable pub encode_length : Span → ℕ → Result Span
encode_length d n =
    let lz_bytes = countl_zero 64 n / 8 in
    let shifted = if not (n == 0) then n * 2 ^ (lz_bytes * 8) % 2 ^ 64 else n in
    store (big_endian 8 shifted) d >>= subspan (8 - lz_bytes)

unfoldable pub string_length : List ℕ → ℕ
string_length s =
    if length s == 1 && leb (get_or s 0 0) 0x7f
    then 1
    else if leb (length s) 55
    then 1 + length s
    else 1 + length_length (length s) + length s

-- `static_cast<unsigned char>` of the sum
abbrev pub byte : ℕ → ℕ
byte n = n % 256

unfoldable pub encode_string : Span → List ℕ → Result Span
encode_string d s =
    if length s == 1 && leb (get_or s 0 0) 0x7f
    then (assign (get_or s 0 0) d >>= subspan 1)
    else if leb (length s) 55
    then (assign (byte (0x80 + byte (length s))) d >>= subspan 1 >>= store s >>= subspan (length s))
    else (assign (byte (0xb7 + byte (length_length (length s)))) d
        >>= subspan 1
        >>= (λ d'. encode_length d' (length s))
        >>= store s
        >>= subspan (length s))

unfoldable pub list_length : ℕ → ℕ
list_length concatenated_size =
    if leb concatenated_size 55
    then 1 + concatenated_size
    else 1 + length_length concatenated_size + concatenated_size

unfoldable pub encode_list : Span → List ℕ → Result Span
encode_list d s =
    if leb (length s) 55
    then (assign (byte (0xc0 + byte (length s))) d >>= subspan 1 >>= store s >>= subspan (length s))
    else (assign (byte (0xf7 + byte (length_length (length s)))) d
        >>= subspan 1
        >>= (λ d'. encode_length d' (length s))
        >>= store s
        >>= subspan (length s))
