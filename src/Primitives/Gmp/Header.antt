-- ===== src/Primitives/Gmp/Header.antt =====
-- What the header of a message of primitives/src/gmp.rs, and the bytes that a shard signs, determine.
use timechain.Prelude.{
  ℕ, ◌^◌, ◌<◌, ◌≡◌, ◌↔◌, refl, sym, ◌∙◌, List, ◌++◌, arith, length, length-append, replicate,
}
use timechain.Primitives.Bytes.{
  to_be_bytes, left_pad_32, length-to_be_bytes, length-left_pad_32, append-injective,
  to_be_bytes-injective, left_pad_32-injective,
}
use timechain.Primitives.Gmp.{
  GmpMessage, encode_header, header_len, GmpParams, gmp_version, params_hash,
}

-- The fields that the header holds fit their integer types.
pub record Fits (m : GmpMessage) : Type 0 where
  pub src : m.src < 256 ^ 32
  pub src_network : m.src_network < 256 ^ 2
  pub dest : m.dest < 256 ^ 32
  pub dest_network : m.dest_network < 256 ^ 2
  pub gas_limit : m.gas_limit < 256 ^ 16
  pub nonce : m.nonce < 256 ^ 8

-- The fields that the header holds.
pub record SameHeader (m n : GmpMessage) : Type 0 where
  pub src : m.src ≡ n.src
  pub src_network : m.src_network ≡ n.src_network
  pub dest : m.dest ≡ n.dest
  pub dest_network : m.dest_network ≡ n.dest_network
  pub gas_limit : m.gas_limit ≡ n.gas_limit
  pub nonce : m.nonce ≡ n.nonce

abbrev word : ℕ → ℕ → List ℕ
word n v = left_pad_32 (to_be_bytes n v)

length-word : (n v : ℕ) → n < 33 → length (word n v) ≡ 32
length-word n v h = length-left_pad_32 (to_be_bytes n v) (omega (arith, length-to_be_bytes n v))

word-injective : (n v w : ℕ) → v < 256 ^ n → w < 256 ^ n → word n v ≡ word n w → v ≡ w
word-injective n v w hv hw e = to_be_bytes-injective n v w hv hw (
    left_pad_32-injective (to_be_bytes n v) (to_be_bytes n w)
      (length-to_be_bytes n v ∙ sym (length-to_be_bytes n w)) e)

-- Equal words at the front carry equal numbers, and equal rests.
word_split :
    (n v w : ℕ) (ys ys' : List ℕ)
    → n < 33
    → v < 256 ^ n
    → w < 256 ^ n
    → word n v ++ ys ≡ word n w ++ ys'
    → (v ≡ w) × (ys ≡ ys')
word_split n v w ys ys' h hv hw e =
    let parts =
      append-injective (word n v) (word n w) ys ys' (length-word n v h ∙ sym (length-word n w h))
        e in
    (word-injective n v w hv hw parts.0, parts.1)

header_fields :
    (m n : GmpMessage) → Fits m → Fits n → encode_header m ≡ encode_header n → SameHeader m n
unfolding encode_header
header_fields m n f g e =
    let zeros = append-injective (replicate 32 0) (replicate 32 0) _ _ refl e in
    let src = word_split 32 m.src n.src _ _ (omega arith) f.src g.src zeros.1 in
    let src_network =
      word_split 2 m.src_network n.src_network _ _ (omega arith) f.src_network g.src_network
        src.1 in
    let dest = word_split 32 m.dest n.dest _ _ (omega arith) f.dest g.dest src_network.1 in
    let dest_network =
      word_split 2 m.dest_network n.dest_network _ _ (omega arith) f.dest_network g.dest_network
        dest.1 in
    let gas_limit =
      word_split 16 m.gas_limit n.gas_limit _ _ (omega arith) f.gas_limit g.gas_limit
        dest_network.1 in
    record {
      src = src.0;
      src_network = src_network.0;
      dest = dest.0;
      dest_network = dest_network.0;
      gas_limit = gas_limit.0;
      nonce = word-injective 8 m.nonce n.nonce f.nonce g.nonce gas_limit.1;
    }

same_header : (m n : GmpMessage) → SameHeader m n → encode_header m ≡ encode_header n
unfolding encode_header
same_header m n s = rw (s.src, s.src_network, s.dest, s.dest_network, s.gas_limit, s.nonce)

-- Two messages whose fields fit their integer types have the same header exactly when they agree
-- on the source, the destination, both networks, the gas limit and the nonce. The payload and the
-- gas cost play no part.
pub encode_header-eq_iff :
    (m n : GmpMessage) → Fits m → Fits n → (encode_header m ≡ encode_header n) ↔ SameHeader m n
encode_header-eq_iff m n f g = (header_fields m n f g, same_header m n)

-- The bytes that a shard signs determine the network, the gateway and the payload.
pub params_hash-injective :
    (p q : GmpParams) (xs ys : List ℕ)
    → p.network < 256 ^ 2
    → q.network < 256 ^ 2
    → p.gateway < 256 ^ 32
    → q.gateway < 256 ^ 32
    → params_hash p xs ≡ params_hash q ys
    → (p ≡ q) × (xs ≡ ys)
unfolding params_hash
params_hash-injective p q xs ys pn qn pg qg e =
    let rest = append-injective gmp_version gmp_version _ _ refl e in
    let network =
      append-injective (to_be_bytes 2 p.network) (to_be_bytes 2 q.network) _ _
        (length-to_be_bytes 2 p.network ∙ sym (length-to_be_bytes 2 q.network)) rest.1 in
    let gateway =
      append-injective (to_be_bytes 32 p.gateway) (to_be_bytes 32 q.gateway) xs ys
        (length-to_be_bytes 32 p.gateway ∙ sym (length-to_be_bytes 32 q.gateway)) network.1 in
    let same_network = to_be_bytes-injective 2 p.network q.network pn qn network.0 in
    let same_gateway = to_be_bytes-injective 32 p.gateway q.gateway pg qg gateway.0 in
    (λ i. record { network = same_network i; gateway = same_gateway i }, gateway.1)

-- A header has the 224 bytes that `HEADER_LEN` promises.
pub length-encode_header : (m : GmpMessage) → length (encode_header m) ≡ header_len
unfolding encode_header
length-encode_header m = omega (
  arith,
  length-append {0},
  length-word 32 m.src (omega arith),
  length-word 2 m.src_network (omega arith),
  length-word 32 m.dest (omega arith),
  length-word 2 m.dest_network (omega arith),
  length-word 16 m.gas_limit (omega arith),
  length-word 8 m.nonce (omega arith),
)
