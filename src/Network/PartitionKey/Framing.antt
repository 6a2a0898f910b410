-- ===== src/Network/PartitionKey/Framing.antt =====
-- The text that a partition key is the hash of determines origin, identity and context.
use dev_browse.Prelude.{
  ℕ, zero, suc, ◌/◌, ◌%◌, ◌^◌, ◌<◌, ◌≡◌, refl, sym, ◌∙◌, List, [], ◌∷◌, ◌++◌, length, arith,
}
use dev_browse.Network.PartitionKey.{partition_key_domain, le_bytes, hashed}

length-le_bytes : (n v : ℕ) → length (le_bytes n v) ≡ n
unfolding le_bytes
length-le_bytes zero v = refl
length-le_bytes (suc n) v = omega (arith, length-le_bytes n (v / 256))

-- Two texts with heads of one length are equal only part by part.
pub split_equal : (a b x y : List ℕ) → length a ≡ length b → a ++ x ≡ b ++ y → (a ≡ b) × (x ≡ y)
split_equal [] [] x y l e = (refl, e)
split_equal [] (q ∷ b) x y l e = absurd (omega arith)
split_equal (p ∷ a) [] x y l e = absurd (omega arith)
split_equal (p ∷ a) (q ∷ b) x y l e =
    let (head, tail) = split_equal a b x y (omega arith) (cc e) in (cc (head, e), tail)

le_bytes_injective : (n v w : ℕ) → v < 256 ^ n → w < 256 ^ n → le_bytes n v ≡ le_bytes n w → v ≡ w
unfolding le_bytes
le_bytes_injective zero v w hv hw e = omega arith
le_bytes_injective (suc n) v w hv hw e =
    let low : v % 256 ≡ w % 256 = cc e in
    let high = le_bytes_injective n (v / 256) (w / 256) (omega arith) (omega arith) (cc e) in
    omega (arith, low, high)

-- The domain tag, the length prefix and the fixed size of the identifiers make the framing
-- unambiguous: of origins shorter than 2^64 bytes and identifiers of 16 bytes, two triples are
-- hashed as the same text only if they are the same.
pub hashed_injective :
    (o o' i i' c c' : List ℕ)
    → length o < 2 ^ 64
    → length o' < 2 ^ 64
    → length i ≡ 16
    → length i' ≡ 16
    → hashed o i c ≡ hashed o' i' c'
    → (o ≡ o') × (i ≡ i') × (c ≡ c')
unfolding hashed
hashed_injective o o' i i' c c' ho ho' hi hi' e =
    let (_, e1) = split_equal partition_key_domain partition_key_domain _ _ refl e in
    let (len, e2) =
      split_equal (le_bytes 8 (length o)) (le_bytes 8 (length o')) _ _
        (length-le_bytes 8 (length o) ∙ sym (length-le_bytes 8 (length o'))) e1 in
    let (origin, e3) =
      split_equal o o' _ _
        (le_bytes_injective 8 (length o) (length o') (omega arith) (omega arith) len) e2 in
    let (identity, context) = split_equal i i' c c' (hi ∙ sym hi') e3 in (origin, identity, context)
