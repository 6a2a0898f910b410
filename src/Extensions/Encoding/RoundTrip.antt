-- ===== src/Extensions/Encoding/RoundTrip.antt =====
-- The decoders on what the encoders write.
use dev_browse.Prelude.{
  ℕ, ◌+◌, ◌*◌, ◌/◌, ◌%◌, ◌<◌, ◌≡◌, refl, ap, List, [], ◌∷◌, ok, arith, length, All,
}
use dev_browse.Extensions.Encoding.{
  to_hex, hex_digit, hex_nibble, from_hex_chunks, from_hex, base64_char, base64_value, b64_encode,
  b64_decode,
}

abbrev pub IsByte : ℕ → Type 0
IsByte b = b < 256

nibble_back : (n : ℕ) → n < 16 → hex_nibble (hex_digit n) ≡ ok n
unfolding hex_nibble
nibble_back n h = ground arith

length-to_hex : (bs : List ℕ) → length (to_hex bs) ≡ 2 * length bs
unfolding to_hex
length-to_hex [] = refl
length-to_hex (b ∷ bs) = omega (arith, length-to_hex bs)

chunks_back : (bs : List ℕ) → All IsByte bs → from_hex_chunks (to_hex bs) ≡ ok bs
unfolding to_hex from_hex_chunks
chunks_back [] h = refl
chunks_back (b ∷ bs) (hb, hbs) =
    rw (nibble_back (b / 16) (omega arith), nibble_back (b % 16) (omega arith), chunks_back bs hbs)
      (ap (λ n. ok (n ∷ bs)) (omega arith))

-- A hash of 32 bytes is read back from its hexadecimal text.
pub from_hex-to_hex :
    (hash : List ℕ) → length hash ≡ 32 → All IsByte hash → from_hex (to_hex hash) ≡ ok hash
unfolding from_hex
from_hex-to_hex hash h b =
    let size : length (to_hex hash) ≡ 64 = omega (arith, length-to_hex hash) in
    rw (size, chunks_back hash b) refl

value_back : (n : ℕ) → base64_value (base64_char (n % 64)) ≡ ok (n % 64)
unfolding base64_value base64_char
value_back n = below (n % 64) (omega arith)
  where
    below : (i : ℕ) → i < 64 → base64_value (base64_char i) ≡ ok i
    below i h = ground arith

-- The four six-bit groups of three bytes.
sextets :
    (n : ℕ)
    → n < 16777216
    → ((n / 262144 % 64 * 64 + n / 4096 % 64) * 64 + n / 64 % 64) * 64 + n % 64 ≡ n
sextets n h = omega arith

-- Bytes, as many as there are, are read back from their base64 text.
pub b64_decode-b64_encode : (bs : List ℕ) → All IsByte bs → b64_decode (b64_encode bs) ≡ ok bs
unfolding b64_decode b64_encode
b64_decode-b64_encode [] h = refl
b64_decode-b64_encode (b0 ∷ []) (h0, _) =
    let n = b0 * 65536 in
    rw (value_back (n / 262144), value_back (n / 4096)) (ap (λ k. ok (k ∷ [])) (omega arith))
b64_decode-b64_encode (b0 ∷ b1 ∷ []) h =
    let h0 : b0 < 256 = h.0 in
    let h1 : b1 < 256 = h.1.0 in
    let n = b0 * 65536 + b1 * 256 in
    let high : (((n / 262144 % 64) * 64 + n / 4096 % 64) * 64 + n / 64 % 64) * 64 / 65536 % 256
        ≡ b0 =
      omega arith in
    let low : (((n / 262144 % 64) * 64 + n / 4096 % 64) * 64 + n / 64 % 64) * 64 / 256 % 256 ≡ b1 =
      omega arith in
    rw (value_back (n / 262144), value_back (n / 4096), value_back (n / 64), high, low) refl
b64_decode-b64_encode (b0 ∷ b1 ∷ b2 ∷ bs) h =
    let h0 : b0 < 256 = h.0 in
    let h1 : b1 < 256 = h.1.0 in
    let h2 : b2 < 256 = h.1.1.0 in
    let n = b0 * 65536 + b1 * 256 + b2 in
    let high : n / 65536 % 256 ≡ b0 = omega arith in
    let middle : n / 256 % 256 ≡ b1 = omega arith in
    let low : n % 256 ≡ b2 = omega arith in
    rw
      (
        value_back (n / 262144),
        value_back (n / 4096),
        value_back (n / 64),
        value_back n,
        b64_decode-b64_encode bs h.1.1.1,
        sextets n (omega arith),
        high,
        middle,
        low,
      )
      refl
