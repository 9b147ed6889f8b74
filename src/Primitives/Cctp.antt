-- ===== src/Primitives/Cctp.antt =====
-- primitives/src/cctp.rs: byte strings of any length in blocks of 32 bytes, at a `usize` of 64 bits.
pub mod Roundtrip
pub mod Message
use timechain.Prelude.{
  ℕ, ◌+◌, ◌-◌, ◌*◌, ◌%◌, List, [], ◌∷◌, ◌++◌, ltb, ◌==◌, ◌||◌, if◌then◌else◌, length, take, drop,
  replicate, wrapping_add, u64_mod,
}
use timechain.Outcome.{Outcome, ok, err, panic, ◌>>=◌, insufficient_data, invalid_block_size}
use timechain.Primitives.Bytes.{to_be_bytes, left_pad_32}

abbrev pub decode_block_size : ℕ
decode_block_size = 32

-- `from_be_bytes`, with the number that the bytes before stand for.
unfoldable pub from_be_bytes : ℕ → List ℕ → ℕ
from_be_bytes acc [] = acc
from_be_bytes acc (x ∷ xs) = from_be_bytes (acc * 256 + x) xs

-- `input[start..end]`, for bounds that are in order and in range.
abbrev pub slice : ℕ → ℕ → List ℕ → List ℕ
slice start end input = take (end - start) (drop start input)

-- How many bytes fill the last block.
abbrev pub padding : ℕ → ℕ
padding len = if (len % 32) == 0 then 0 else 32 - len % 32

unfoldable pub encode_dynamic : List ℕ → List ℕ
encode_dynamic bytes =
    left_pad_32 (to_be_bytes 8 (length bytes)) ++ (bytes ++ replicate (padding (length bytes)) 0)

-- `decode_dynamic` after the length was read: the sums wrap, and bounds out of order or out of
-- range panic.
unfoldable pub decode_sized : List ℕ → ℕ → Outcome (List ℕ × ℕ)
decode_sized input len =
    let padded_length = wrapping_add u64_mod len (padding len) in
    let total_size = wrapping_add u64_mod decode_block_size padded_length in
    let end = wrapping_add u64_mod decode_block_size len in
    if ltb (length input) total_size
    then err insufficient_data
    else if ltb end decode_block_size || ltb (length input) end
    then panic
    else ok (slice decode_block_size end input, total_size)

-- `decode_dynamic` of `Vec<u8>`.
unfoldable pub decode_dynamic : List ℕ → Outcome (List ℕ × ℕ)
decode_dynamic input =
    if ltb (length input) decode_block_size
    then err insufficient_data
    else decode_sized input (from_be_bytes 0 (slice 24 32 (slice 0 32 input)))

pub record CctpMessage : Type 0 where
  pub attestation : List ℕ
  pub message : List ℕ
  pub extra_data : List ℕ

-- A `usize` in a block.
abbrev pub size_block : ℕ → List ℕ
size_block v = left_pad_32 (to_be_bytes 8 v)

-- `CCTPMessage::encode`.
unfoldable pub encode : CctpMessage → List ℕ
encode m =
    let attestation = encode_dynamic m.attestation in
    let message = encode_dynamic m.message in
    let extra_data = encode_dynamic m.extra_data in
    let attestation_offset = 3 * decode_block_size in
    let message_offset = attestation_offset + length attestation in
    let extra_offset = message_offset + length message in
    size_block 32
    ++ (size_block attestation_offset
        ++ (size_block message_offset
            ++ (size_block extra_offset ++ (attestation ++ (message ++ extra_data)))))

-- `u64::decode_from_block`.
unfoldable pub decode_from_block : List ℕ → Outcome ℕ
decode_from_block block =
    if length block == decode_block_size
    then ok (from_be_bytes 0 (slice 24 32 block))
    else err invalid_block_size

-- `decode_dynamic(&input[offset..])`: an offset past the end panics.
unfoldable pub decode_at : List ℕ → ℕ → Outcome (List ℕ × ℕ)
decode_at input offset =
    if ltb (length input) offset then panic else decode_dynamic (drop offset input)

-- `from_bytes` after the first block.
unfoldable pub decode_fields : List ℕ → Outcome CctpMessage
decode_fields input =
    if ltb (length input) (3 * decode_block_size)
    then err insufficient_data
    else (decode_from_block (slice 0 32 input) >>= λ attestation_offset.
        decode_from_block (slice 32 64 input) >>= λ message_offset.
        decode_from_block (slice 64 96 input) >>= λ extra_offset.
        decode_at input attestation_offset >>= λ attestation.
        decode_at input message_offset >>= λ message. decode_at input extra_offset >>= λ extra_data.
        ok (record { attestation = attestation.0; message = message.0; extra_data = extra_data.0 }))

-- `CCTPMessage::from_bytes`.
unfoldable pub from_bytes : List ℕ → Outcome CctpMessage
from_bytes input =
    if ltb (length input) decode_block_size
    then err insufficient_data
    else (decode_from_block (slice 0 32 input) >>= λ head. decode_fields (drop 32 input))
