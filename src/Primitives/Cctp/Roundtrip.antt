-- ===== src/Primitives/Cctp/Roundtrip.antt =====
-- What `encode_dynamic` of primitives/src/cctp.rs writes, `decode_dynamic` reads.
use mathlib.Core.List.{append_assoc, append-nil}
use native.Mathlib.Nat.{mod-eq_of_lt, div-add-mod, pow-suc}
use timechain.Prelude.{
  ℕ, zero, suc, ◌+◌, ◌-◌, ◌*◌, ◌/◌, ◌%◌, ◌^◌, ◌≤◌, ◌<◌, ◌≡◌, refl, sym, ap, ◌∙◌, false, List, [],
  ◌∷◌, ◌++◌, arith, length, take, drop, replicate, length-append, length-replicate, take-append,
  drop-append, ltb, wrapping_add, u64_mod,
}
use timechain.Outcome.{ok}
use timechain.Primitives.Bytes.{to_be_bytes, left_pad_32, length-to_be_bytes, length-left_pad_32}
use timechain.Primitives.Cctp.{
  from_be_bytes, slice, padding, encode_dynamic, decode_sized, decode_dynamic,
}

from_be_bytes-append :
    (acc : ℕ) (xs ys : List ℕ)
    → from_be_bytes acc (xs ++ ys) ≡ from_be_bytes (from_be_bytes acc xs) ys
unfolding from_be_bytes
from_be_bytes-append acc [] ys = refl
from_be_bytes-append acc (x ∷ xs) ys = from_be_bytes-append (acc * 256 + x) xs ys

pub from_be_bytes-to_be_bytes : (n v : ℕ) → v < 256 ^ n → from_be_bytes 0 (to_be_bytes n v) ≡ v
unfolding from_be_bytes to_be_bytes
from_be_bytes-to_be_bytes zero v h = omega arith
from_be_bytes-to_be_bytes (suc n) v h =
    from_be_bytes-append 0 (to_be_bytes n (v / 256)) (v % 256 ∷ [])
    ∙ ap (λ a. a * 256 + v % 256)
        (from_be_bytes-to_be_bytes n (v / 256) (omega (arith, pow-suc 256 n)))
    ∙ omega (arith, div-add-mod v 256)

-- The first block holds the length in its last 8 bytes.
pub length_block :
    (bytes rest : List ℕ)
    → length bytes < 256 ^ 8
    → from_be_bytes 0
        (slice 24 32 (slice 0 32 (left_pad_32 (to_be_bytes 8 (length bytes)) ++ rest)))
      ≡ length bytes
unfolding left_pad_32
length_block bytes rest h =
    let be = to_be_bytes 8 (length bytes) in
    let zeros : List ℕ = replicate (32 - length be) 0 in
    let eight = length-to_be_bytes 8 (length bytes) in
    let block = take-append (zeros ++ be) rest 32 (length-left_pad_32 be (omega (arith, eight))) in
    let tail =
      drop-append zeros be 24 (omega (arith, eight, length-replicate {A = ℕ} (32 - length be) 0)) in
    let whole : take 8 (be ++ []) ≡ be = take-append be [] 8 eight in
    ap (λ l. from_be_bytes 0 (take 8 (drop 24 l))) block
    ∙ ap (λ l. from_be_bytes 0 (take 8 l)) (tail ∙ sym (append-nil be))
    ∙ ap (from_be_bytes 0) whole
    ∙ from_be_bytes-to_be_bytes 8 (length bytes) h

pub padding_small : (n : ℕ) → padding n < 33
padding_small n = ground arith

decode_sized_exact :
    (block bytes tail : List ℕ)
    → length block ≡ 32
    → padding (length bytes) ≤ length tail
    → 64 + length bytes < u64_mod
    → decode_sized (block ++ (bytes ++ tail)) (length bytes)
      ≡ ok (bytes, 32 + (length bytes + padding (length bytes)))
unfolding decode_sized
decode_sized_exact block bytes tail first enough room =
    let n : ℕ = length bytes in
    let small = padding_small n in
    let size : length (block ++ (bytes ++ tail)) ≡ 32 + (n + length tail) =
      omega (arith, length-append block (bytes ++ tail), length-append bytes tail) in
    let padded : wrapping_add u64_mod n (padding n) ≡ n + padding n =
      mod-eq_of_lt (omega (arith, small)) in
    let total : wrapping_add u64_mod 32 (n + padding n) ≡ 32 + (n + padding n) =
      mod-eq_of_lt (omega (arith, small)) in
    let end : wrapping_add u64_mod 32 n ≡ 32 + n = mod-eq_of_lt (omega arith) in
    let fits : ltb (32 + (n + length tail)) (32 + (n + padding n)) ≡ false =
      ground (arith, enough) in
    let in_order : ltb (32 + n) 32 ≡ false = ground arith in
    let in_range : ltb (32 + (n + length tail)) (32 + n) ≡ false = ground arith in
    let width : 32 + n - 32 ≡ n = omega arith in
    rw
      (
        padded,
        total,
        end,
        size,
        fits,
        in_order,
        in_range,
        width,
        drop-append block (bytes ++ tail) 32 first,
        take-append bytes tail n refl,
      )
      refl

-- Bytes that were encoded are decoded to themselves, whatever follows them, and the size that is
-- reported is that of the encoding. The encoding fits the 64 bits of a size.
pub decode_dynamic-encode_dynamic :
    (bytes rest : List ℕ)
    → 64 + length bytes < u64_mod
    → decode_dynamic (encode_dynamic bytes ++ rest) ≡ ok (bytes, length (encode_dynamic bytes))
unfolding decode_dynamic encode_dynamic
decode_dynamic-encode_dynamic bytes rest room =
    let n : ℕ = length bytes in
    let be = to_be_bytes 8 n in
    let block = left_pad_32 be in
    let first = length-left_pad_32 be (omega (arith, length-to_be_bytes 8 n)) in
    let zeros : List ℕ = replicate (padding n) 0 in
    let pad = length-replicate {A = ℕ} (padding n) 0 in
    let shape : (block ++ (bytes ++ zeros)) ++ rest ≡ block ++ (bytes ++ (zeros ++ rest)) =
      append_assoc block (bytes ++ zeros) rest
      ∙ ap (λ l. block ++ l) (append_assoc bytes zeros rest) in
    let big : ltb (length (block ++ (bytes ++ (zeros ++ rest)))) 32 ≡ false =
      ground (arith, length-append block (bytes ++ (zeros ++ rest)), first) in
    let len = length_block bytes (bytes ++ (zeros ++ rest)) (omega arith) in
    let exact =
      decode_sized_exact block bytes (zeros ++ rest) first
        (omega (arith, length-append zeros rest, pad)) room in
    let size : 32 + (n + padding n) ≡ length (block ++ (bytes ++ zeros)) =
      omega (arith, length-append block (bytes ++ zeros), length-append bytes zeros, first, pad) in
    rw (shape, big, len) (exact ∙ ap (λ k. ok (bytes, k)) size)
