-- ===== src/Tss/Frost.antt =====
-- `frost_evm`, the library of threshold signatures under tss/src, as a parameter: what tss/src calls
-- of it. Nonces, commitments, shares, keys and signatures are opaque values, read as numbers.
use timechain.Prelude.{ℕ, Option, List}
use timechain.Storage.{Map}

-- `SigningPackage::new(commitments, data)`.
pub record SigningPackage : Type 0 where
  pub commitments : Map ℕ
  pub message : List ℕ

-- The random bytes of `OsRng` come in streams, one for each signer and key generation, and in draws
-- of a stream: `commit key stream draw` is what `round1::commit` makes of the bytes that it then
-- gets, the nonces and the commitment to them.
pub record Frost : Type 0 where
  pub commit : ℕ → ℕ → ℕ → ℕ × ℕ
  pub sign : SigningPackage → ℕ → ℕ → Option ℕ
  pub aggregate : SigningPackage → Map ℕ → ℕ → Option ℕ
  pub message_hash : List ℕ → ℕ
  -- `part1(id, members, threshold, OsRng)`: the secret package, the commitment and the proof.
  pub part1 : ℕ → ℕ → ℕ → ℕ → ℕ → Option (ℕ × ℕ × ℕ)
  -- `SigningShare::from_coefficients(secret_package.coefficients(), peer)`.
  pub share_for : ℕ → ℕ → ℕ
  -- The sum of two shares, as scalars, and `Scalar::ZERO`.
  pub add_share : ℕ → ℕ → ℕ
  pub zero_share : ℕ
  -- `KeyPackage::try_from(SecretShare::new(id, share, commitment))`.
  pub key_package : ℕ → ℕ → ℕ → Option ℕ
  -- `PublicKeyPackage::from_commitment(members, commitment)`.
  pub public_key_package : Map (Unit {0}) → ℕ → Option ℕ
  -- The signing share of a key package, and the verifying key of a public one.
  pub signing_share : ℕ → ℕ
  pub verifying_key : ℕ → ℕ
