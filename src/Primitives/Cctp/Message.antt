-- ===== src/Primitives/Cctp/Message.antt =====
-- What `CCTPMessage::encode` of primitives/src/cctp.rs writes, `from_bytes` reads.
use mathlib.Core.List.{append_assoc, append-nil}
use timechain.Prelude.{
  ℕ, ◌+◌, ◌-◌, ◌^◌, ◌<◌, ◌≡◌, refl, sym, ap, ◌∙◌, true, false, List, [], ◌++◌, arith, length, take,
  drop, replicate, length-append, length-replicate, take-append, drop-append, ltb, ◌==◌, u64_mod,
}
use timechain.Outcome.{ok}
use timechain.Primitives.Bytes.{to_be_bytes, left_pad_32, length-to_be_bytes, length-left_pad_32}
use timechain.Primitives.Cctp.{
  CctpMessage, size_block, padding, from_be_bytes, encode_dynamic, encode, decode_from_block,
  decode_at, decode_fields, from_bytes,
}
use timechain.Primitives.Cctp.Roundtrip.{
  from_be_bytes-to_be_bytes, padding_small, decode_dynamic-encode_dynamic,
}

length-size_block : (v : ℕ) → length (size_block v) ≡ 32
length-size_block v = length-left_pad_32 (to_be_bytes 8 v) (omega (arith, length-to_be_bytes 8 v))

decode_from_block-size_block : (v : ℕ) → v < 256 ^ 8 → decode_from_block (size_block v) ≡ ok v
unfolding decode_from_block left_pad_32
decode_from_block-size_block v h =
    let be = to_be_bytes 8 v in
    let zeros : List ℕ = replicate (32 - length be) 0 in
    let eight = length-to_be_bytes 8 v in
    let whole : (length (size_block v) == 32) ≡ true = ground (arith, length-size_block v) in
    let tail =
      drop-append zeros be 24 (omega (arith, eight, length-replicate {A = ℕ} (32 - length be) 0)) in
    let all : take 8 (be ++ []) ≡ be = take-append be [] 8 eight in
    let value : from_be_bytes 0 (take 8 (drop 24 (zeros ++ be))) ≡ v =
      ap (λ l. from_be_bytes 0 (take 8 l)) (tail ∙ sym (append-nil be))
      ∙ ap (from_be_bytes 0) all
      ∙ from_be_bytes-to_be_bytes 8 v h in
    rw whole (ap ok value)

block_at :
    (before rest : List ℕ) (v start : ℕ)
    → length before ≡ start
    → v < 256 ^ 8
    → decode_from_block (take 32 (drop start (before ++ (size_block v ++ rest)))) ≡ ok v
block_at before rest v start at h =
    ap decode_from_block (
      ap (take 32) (drop-append before (size_block v ++ rest) start at)
      ∙ take-append (size_block v) rest 32 (length-size_block v))
    ∙ decode_from_block-size_block v h

-- An encoding that stands at an offset is decoded there.
decode_at-encode_dynamic :
    (before bytes rest : List ℕ) (offset : ℕ)
    → length before ≡ offset
    → 64 + length bytes < u64_mod
    → decode_at (before ++ (encode_dynamic bytes ++ rest)) offset
      ≡ ok (bytes, length (encode_dynamic bytes))
unfolding decode_at
decode_at-encode_dynamic before bytes rest offset at room =
    let within : ltb (length (before ++ (encode_dynamic bytes ++ rest))) offset ≡ false =
      ground (arith, length-append before (encode_dynamic bytes ++ rest)) in
    rw (within, drop-append before (encode_dynamic bytes ++ rest) offset at)
      (decode_dynamic-encode_dynamic bytes rest room)

length-encode_dynamic :
    (bytes : List ℕ) → length (encode_dynamic bytes) ≡ 32 + (length bytes + padding (length bytes))
unfolding encode_dynamic
length-encode_dynamic bytes =
    let n : ℕ = length bytes in
    let zeros : List ℕ = replicate (padding n) 0 in
    omega (
      arith,
      length-append (size_block n) (bytes ++ zeros),
      length-append bytes zeros,
      length-size_block n,
      length-replicate {A = ℕ} (padding n) 0,
    )

encode_dynamic_small : (bytes : List ℕ) → length (encode_dynamic bytes) < 65 + length bytes
encode_dynamic_small bytes =
    omega (arith, length-encode_dynamic bytes, padding_small (length bytes))

decode_fields-size_blocks :
    (x y z : List ℕ)
    → 512 + (length x + (length y + length z)) < u64_mod
    → (a b c : ℕ) → a ≡ 96
    → b ≡ a + length (encode_dynamic x)
    → c ≡ b + length (encode_dynamic y)
    → decode_fields (
        size_block a
        ++ (size_block b
            ++ (size_block c ++ (encode_dynamic x ++ (encode_dynamic y ++ encode_dynamic z)))))
      ≡ ok (record { attestation = x; message = y; extra_data = z })
unfolding decode_fields
decode_fields-size_blocks x y z room a b c ha hb hc =
    let fx = encode_dynamic x in
    let fy = encode_dynamic y in
    let fz = encode_dynamic z in
    let body : List ℕ = fx ++ (fy ++ fz) in
    let head : List ℕ = size_block a ++ (size_block b ++ size_block c) in
    let input : List ℕ = size_block a ++ (size_block b ++ (size_block c ++ body)) in
    let sx = encode_dynamic_small x in
    let sy = encode_dynamic_small y in
    let hd : length head ≡ 96 = omega (
      arith,
      length-append (size_block a) (size_block b ++ size_block c),
      length-append (size_block b) (size_block c),
      length-size_block a,
      length-size_block b,
      length-size_block c,
    ) in
    let s1 : input ≡ head ++ body = sym (
      append_assoc (size_block a) (size_block b ++ size_block c) body
      ∙ ap (λ l. size_block a ++ l) (append_assoc (size_block b) (size_block c) body)) in
    let s2 : input ≡ (head ++ fx) ++ (fy ++ fz) = s1 ∙ sym (append_assoc head fx (fy ++ fz)) in
    let s3 : input ≡ ((head ++ fx) ++ fy) ++ (fz ++ []) =
      s2
      ∙ sym (append_assoc (head ++ fx) fy fz)
      ∙ ap (λ l. ((head ++ fx) ++ fy) ++ l) (sym (append-nil fz)) in
    let pair : input ≡ (size_block a ++ size_block b) ++ (size_block c ++ body) =
      sym (append_assoc (size_block a) (size_block b) (size_block c ++ body)) in
    let long : ltb (length input) 96 ≡ false =
      ground (arith, ap length s1, length-append head body, hd) in
    let first = block_at [] (size_block b ++ (size_block c ++ body)) a 0 refl (omega arith) in
    let second =
      block_at (size_block a) (size_block c ++ body) b 32 (length-size_block a) (omega arith) in
    let third =
      ap (λ l. decode_from_block (take 32 (drop 64 l))) pair
      ∙ block_at (size_block a ++ size_block b) body c 64
          (omega (
            arith,
            length-append (size_block a) (size_block b),
            length-size_block a,
            length-size_block b,
          ))
          (omega arith) in
    let at_x =
      ap (λ l. decode_at l a) s1
      ∙ decode_at-encode_dynamic head x (fy ++ fz) a (omega arith) (omega arith) in
    let at_y =
      ap (λ l. decode_at l b) s2
      ∙ decode_at-encode_dynamic (head ++ fx) y fz b (omega (arith, length-append head fx))
          (omega arith) in
    let at_z =
      ap (λ l. decode_at l c) s3
      ∙ decode_at-encode_dynamic ((head ++ fx) ++ fy) z [] c
          (omega (arith, length-append (head ++ fx) fy, length-append head fx)) (omega arith) in
    rw (long, first, second, third, at_x, at_y, at_z) refl

-- A message that was encoded is decoded to itself: the three offsets lead to the three byte
-- strings. The encoding fits the 64 bits of a size.
pub from_bytes-encode :
    (m : CctpMessage)
    → 512 + (length m.attestation + (length m.message + length m.extra_data)) < u64_mod
    → from_bytes (encode m) ≡ ok m
unfolding from_bytes encode
from_bytes-encode m room =
    let x = encode_dynamic m.attestation in
    let y = encode_dynamic m.message in
    let z = encode_dynamic m.extra_data in
    let a : ℕ = 96 in
    let b : ℕ = a + length x in
    let c : ℕ = b + length y in
    let rest : List ℕ = size_block a ++ (size_block b ++ (size_block c ++ (x ++ (y ++ z)))) in
    let long : ltb (length (size_block 32 ++ rest)) 32 ≡ false =
      ground (arith, length-append (size_block 32) rest, length-size_block 32) in
    let head = block_at [] rest 32 0 refl (omega arith) in
    rw (long, head, drop-append (size_block 32) rest 32 (length-size_block 32))
      (decode_fields-size_blocks m.attestation m.message m.extra_data room a b c refl refl refl)
