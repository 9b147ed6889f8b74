-- ===== src/Primitives/Bytes.antt =====
-- Fixed-length byte strings: `to_be_bytes` of the integer types, and `left_pad_32` of
-- primitives/src/cctp.rs. A byte string of fixed length is read as the number that it spells.
use native.Mathlib.Nat.{pow-suc}
use timechain.Prelude.{
  ℕ, zero, suc, ◌-◌, ◌/◌, ◌%◌, ◌^◌, ◌<◌, ◌≡◌, refl, sym, ap, ◌∙◌, List, [], ◌∷◌, ◌++◌, arith,
  length, length-append, length-replicate, replicate,
}

-- The `n` bytes of `v`, the most significant first.
unfoldable pub to_be_bytes : ℕ → ℕ → List ℕ
to_be_bytes zero v = []
to_be_bytes (suc n) v = to_be_bytes n (v / 256) ++ (v % 256) ∷ []

unfoldable pub left_pad_32 : List ℕ → List ℕ
left_pad_32 bytes = replicate (32 - length bytes) 0 ++ bytes

pub length-to_be_bytes : (n v : ℕ) → length (to_be_bytes n v) ≡ n
unfolding to_be_bytes
length-to_be_bytes zero v = refl
length-to_be_bytes (suc n) v = omega (
  arith,
  length-append (to_be_bytes n (v / 256)) ((v % 256) ∷ []),
  length-to_be_bytes n (v / 256),
)

pub length-left_pad_32 : (bytes : List ℕ) → length bytes < 33 → length (left_pad_32 bytes) ≡ 32
unfolding left_pad_32
length-left_pad_32 bytes h = omega (
  arith,
  length-append (replicate (32 - length bytes) 0) bytes,
  length-replicate {A = ℕ} (32 - length bytes) 0,
)

-- Where two concatenations agree and their first parts are equally long, the parts agree.
pub append-injective {ℓ} :
    {A : Type ℓ} (xs xs' ys ys' : List A)
    → length xs ≡ length xs'
    → xs ++ ys ≡ xs' ++ ys'
    → (xs ≡ xs') × (ys ≡ ys')
append-injective [] [] ys ys' h e = (refl, e)
append-injective [] (x' ∷ xs') ys ys' h e = absurd (omega arith)
append-injective (x ∷ xs) [] ys ys' h e = absurd (omega arith)
append-injective (x ∷ xs) (x' ∷ xs') ys ys' h e =
    let rest = append-injective xs xs' ys ys' (omega arith) (cc) in (cc rest.0, rest.1)

-- A number of `n` bytes is determined by them.
pub to_be_bytes-injective :
    (n v w : ℕ) → v < 256 ^ n → w < 256 ^ n → to_be_bytes n v ≡ to_be_bytes n w → v ≡ w
unfolding to_be_bytes
to_be_bytes-injective zero v w hv hw e = omega arith
to_be_bytes-injective (suc n) v w hv hw e =
    let parts =
      append-injective (to_be_bytes n (v / 256)) (to_be_bytes n (w / 256)) _ _
        (length-to_be_bytes n (v / 256) ∙ sym (length-to_be_bytes n (w / 256))) e in
    let last : v % 256 ≡ w % 256 = cc parts.1 in
    let first : v / 256 ≡ w / 256 =
      to_be_bytes-injective n (v / 256) (w / 256) (omega (arith, pow-suc 256 n))
        (omega (arith, pow-suc 256 n)) parts.0 in
    omega arith

pub left_pad_32-injective :
    (xs ys : List ℕ) → length xs ≡ length ys → left_pad_32 xs ≡ left_pad_32 ys → xs ≡ ys
unfolding left_pad_32
left_pad_32-injective xs ys h e =
    (append-injective (replicate (32 - length xs) 0) (replicate (32 - length ys) 0) xs ys
      (ap (λ n. length (replicate {A = ℕ} (32 - n) 0)) h) e).1
