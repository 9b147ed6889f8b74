-- ===== src/Airdrop/Message.antt =====
-- The message that a claim signs in pallets/airdrop/src/lib.rs: `to_message` and `to_ascii_hex`.
use timechain.Prelude.{ℕ, ◌/◌, ◌%◌, ◌≡◌, ◌≢◌, refl, sym, ap, ◌∙◌, List, [], ◌∷◌, ◌++◌, arith}
use timechain.Airdrop.{Config, nibble, to_ascii_hex, to_message, open_tag, close_tag}

head_or : ℕ → List ℕ → ℕ
head_or d [] = d
head_or d (x ∷ xs) = x

tail : List ℕ → List ℕ
tail [] = []
tail (x ∷ xs) = xs

∷-injective : (x y : ℕ) (xs ys : List ℕ) → ◌≡◌ {A = List ℕ} (x ∷ xs) (y ∷ ys) → (x ≡ y) × (xs ≡ ys)
unfolding head_or tail
∷-injective x y xs ys h = (ap (head_or 0) h, ap tail h)

append-cancel : (p xs ys : List ℕ) → p ++ xs ≡ p ++ ys → xs ≡ ys
append-cancel [] xs ys h = h
append-cancel (x ∷ p) xs ys h = append-cancel p xs ys (∷-injective x x (p ++ xs) (p ++ ys) h).1

nibble-injective : (m n : ℕ) → nibble m ≡ nibble n → m ≡ n
unfolding nibble
nibble-injective m n h = ground (arith, h)

-- No digit is the byte that opens the closing tag.
nibble-tag : (n : ℕ) → nibble n ≢ 60
unfolding nibble
nibble-tag n h = ground (arith, h)

halves : (b c : ℕ) → b / 16 ≡ c / 16 → b % 16 ≡ c % 16 → b ≡ c
halves b c h k = omega (arith, h, k)

to_ascii_hex-injective :
    (xs ys : List ℕ) → to_ascii_hex xs ++ close_tag ≡ to_ascii_hex ys ++ close_tag → xs ≡ ys
unfolding to_ascii_hex
to_ascii_hex-injective [] [] h = refl
to_ascii_hex-injective [] (y ∷ ys) h = absurd (nibble-tag (y / 16) (sym (∷-injective _ _ _ _ h).0))
to_ascii_hex-injective (x ∷ xs) [] h = absurd (nibble-tag (x / 16) (∷-injective _ _ _ _ h).0)
to_ascii_hex-injective (x ∷ xs) (y ∷ ys) h =
    let (high, rest) = ∷-injective _ _ _ _ h in
    let (low, more) = ∷-injective _ _ _ _ rest in
    let e : x ≡ y = halves x y (nibble-injective _ _ high) (nibble-injective _ _ low) in
    let f : xs ≡ ys = to_ascii_hex-injective xs ys more in ap (λ z. z ∷ xs) e ∙ ap (λ zs. y ∷ zs) f

-- Two targets with the same message have the same encoded account, whatever the prefix and the
-- encoding of accounts are.
pub to_message-injective :
    {W : Type 0} (cfg : Config W) (a b : ℕ)
    → to_message cfg a ≡ to_message cfg b
    → cfg.encode_account a ≡ cfg.encode_account b
unfolding to_message
to_message-injective cfg a b h =
    to_ascii_hex-injective (cfg.encode_account a) (cfg.encode_account b)
      (append-cancel cfg.raw_prefix _ _ (append-cancel open_tag _ _ h))
