-- ===== src/Protocol/Gray4.antt =====
-- protocol_gray4.py: bytes as symbols of two bits, and the repetition code on symbols.
pub mod Roundtrip
use screen_airdrop.Prelude.{
  ℕ, zero, suc, ◌+◌, ◌-◌, ◌*◌, ◌/◌, ◌%◌, List, [], ◌∷◌, ◌++◌, ◌==◌, leb, ltb, if◌then◌else◌, length,
  take, drop, replicate,
}
use screen_airdrop.Coding.Payload.{Payload}
use screen_airdrop.Protocol.Bits.{repeat_all}
use screen_airdrop.Protocol.Basic.{EccLevel, ecc_to_rep}

unfoldable pub byte_symbols : ℕ → List ℕ
byte_symbols byte = byte / 64 % 4 ∷ byte / 16 % 4 ∷ byte / 4 % 4 ∷ byte % 4 ∷ []

-- The first loop of encode_gray4_symbols.
unfoldable pub symbols_of : Payload → List ℕ
unfolding byte_symbols
symbols_of [] = []
symbols_of (byte ∷ p) = byte_symbols byte ++ symbols_of p

-- The symbols, filled up with 0 to the capacity, and cut off there.
unfoldable pub encode_gray4_symbols : Payload → ℕ → List ℕ
unfolding symbols_of
encode_gray4_symbols p capacity =
    let symbols = symbols_of p in take capacity (symbols ++ replicate (capacity - length symbols) 0)

-- The two bits of each symbol do not overlap in the byte, so the disjunction is a sum.
unfoldable pub byte_of : ℕ → ℕ → ℕ → ℕ → ℕ
byte_of s0 s1 s2 s3 = s0 % 4 * 64 + s1 % 4 * 16 + s2 % 4 * 4 + s3 % 4

-- The loop of decode_gray4_symbols: the count of bytes still wanted, and the symbols left. Missing
-- symbols of the last byte are 0.
unfoldable pub decode_symbols : ℕ → List ℕ → Payload
unfolding byte_of
decode_symbols zero symbols = []
decode_symbols (suc n) [] = []
decode_symbols (suc n) (s0 ∷ []) = byte_of s0 0 0 0 ∷ []
decode_symbols (suc n) (s0 ∷ s1 ∷ []) = byte_of s0 s1 0 0 ∷ []
decode_symbols (suc n) (s0 ∷ s1 ∷ s2 ∷ []) = byte_of s0 s1 s2 0 ∷ []
decode_symbols (suc n) (s0 ∷ s1 ∷ s2 ∷ s3 ∷ symbols) =
    byte_of s0 s1 s2 s3 ∷ decode_symbols n symbols

unfoldable pub decode_gray4_symbols : List ℕ → ℕ → Payload
unfolding decode_symbols
decode_gray4_symbols symbols data_length_bytes =
    take data_length_bytes (decode_symbols data_length_bytes symbols)

unfoldable pub ecc_repetition_symbols : List ℕ → ℕ → List ℕ
ecc_repetition_symbols symbols rep = if leb rep 1 then symbols else repeat_all symbols rep

-- `counts[sym]` of one group
unfoldable pub count_symbol : ℕ → List ℕ → ℕ
count_symbol sym [] = 0
count_symbol sym (s ∷ group) = (if s % 4 == sym then 1 else 0) + count_symbol sym group

-- One round of the search for the best symbol.
unfoldable pub better : List ℕ → ℕ → ℕ → ℕ
unfolding count_symbol
better group best sym = if ltb (count_symbol best group) (count_symbol sym group) then sym else best

unfoldable pub best_symbol : List ℕ → ℕ
unfolding better
best_symbol group = better group (better group (better group 0 1) 2) 3

-- `for i in range(n)`: the group of index i begins at `i * rep`, and is complete.
unfoldable pub symbol_groups : ℕ → List ℕ → ℕ → List ℕ
unfolding best_symbol
symbol_groups zero symbols rep = []
symbol_groups (suc n) symbols rep =
    best_symbol (take rep symbols) ∷ symbol_groups n (drop rep symbols) rep

unfoldable pub decode_repetition_symbols : List ℕ → ℕ → List ℕ
unfolding symbol_groups
decode_repetition_symbols symbols rep =
    if leb rep 1 then symbols else symbol_groups (length symbols / rep) symbols rep

unfoldable pub encode_header_and_payload_symbols : Payload → Payload → EccLevel → List ℕ
unfolding encode_gray4_symbols ecc_repetition_symbols
encode_header_and_payload_symbols header_bytes payload ecc_level =
    let bytes = header_bytes ++ payload in
    ecc_repetition_symbols (encode_gray4_symbols bytes (length bytes * 4)) (ecc_to_rep ecc_level)

unfoldable pub decode_header_and_payload_symbols : List ℕ → EccLevel → ℕ → ℕ → Payload × Payload
unfolding decode_repetition_symbols decode_gray4_symbols
decode_header_and_payload_symbols symbols ecc_level header_size payload_len =
    let dec_symbols = decode_repetition_symbols symbols (ecc_to_rep ecc_level) in
    let raw = decode_gray4_symbols dec_symbols (header_size + payload_len) in
    (take header_size raw, take payload_len (drop header_size raw))
