-- ===== src/Extensions/Encoding.antt =====
-- crates/pb-extensions/src/allowlist.rs: hexadecimal for hashes and base64 for keys. Texts and keys are
-- lists of bytes; shifts and masks are written as arithmetic.
pub mod RoundTrip
use dev_browse.Prelude.{
  ℕ, zero, suc, ◌+◌, ◌-◌, ◌*◌, ◌/◌, ◌%◌, ◌^◌, Bool, true, false, not, ◌&&◌, List, [], ◌∷◌, ◌++◌,
  Outcome, ok, err, panic, ltb, leb, ◌==◌, if◌then◌else◌, length,
}
use dev_browse.Prelude.Fallible.{◌>>=◌}

pub data DecodeError : Type 0 where
  hex_parse_error invalid_base64_character : DecodeError

-- One digit of `{b:02x}`.
abbrev pub hex_digit : ℕ → ℕ
hex_digit n = if ltb n 10 then 48 + n else 87 + n

unfoldable pub to_hex : List ℕ → List ℕ
to_hex [] = []
to_hex (b ∷ bs) = hex_digit (b / 16) ∷ hex_digit (b % 16) ∷ to_hex bs

unfoldable pub hex_nibble : ℕ → Outcome DecodeError ℕ
hex_nibble b =
    if leb 48 b && leb b 57
    then ok (b - 48)
    else if leb 97 b && leb b 102
    then ok (b - 97 + 10)
    else if leb 65 b && leb b 70
    then ok (b - 65 + 10)
    else err hex_parse_error

-- The loop over `chunks(2)`; on a chunk of one byte `chunk[1]` panics.
unfoldable pub from_hex_chunks : List ℕ → Outcome DecodeError (List ℕ)
from_hex_chunks [] = ok []
from_hex_chunks (h ∷ []) = hex_nibble h >>= (λ _. panic)
from_hex_chunks (h ∷ l ∷ s) = do
  high ← hex_nibble h
  low ← hex_nibble l
  rest ← from_hex_chunks s
  ok ((high * 16 + low) ∷ rest)

unfoldable pub from_hex : List ℕ → Outcome DecodeError (List ℕ)
from_hex s = if not (length s == 64) then err hex_parse_error else from_hex_chunks s

-- The character of `ALPHABET` at an index below 64.
unfoldable pub base64_char : ℕ → ℕ
base64_char i =
    if ltb i 26
    then 65 + i
    else if ltb i 52
    then 97 + (i - 26)
    else if ltb i 62
    then 48 + (i - 52)
    else if i == 62
    then 45
    else 95

-- `val` inside `b64_decode`.
unfoldable pub base64_value : ℕ → Outcome DecodeError ℕ
base64_value c =
    if leb 65 c && leb c 90
    then ok (c - 65)
    else if leb 97 c && leb c 122
    then ok (c - 97 + 26)
    else if leb 48 c && leb c 57
    then ok (c - 48 + 52)
    else if c == 45
    then ok 62
    else if c == 95
    then ok 63
    else err invalid_base64_character

-- The loop over `chunks(3)`: `n` is a chunk with zeros for what it lacks.
unfoldable pub b64_encode : List ℕ → List ℕ
b64_encode [] = []
b64_encode (b0 ∷ []) =
    let n = b0 * 65536 in base64_char (n / 262144 % 64) ∷ base64_char (n / 4096 % 64) ∷ []
b64_encode (b0 ∷ b1 ∷ []) =
    let n = b0 * 65536 + b1 * 256 in
    base64_char (n / 262144 % 64) ∷ base64_char (n / 4096 % 64) ∷ base64_char (n / 64 % 64) ∷ []
b64_encode (b0 ∷ b1 ∷ b2 ∷ bs) =
    let n = b0 * 65536 + b1 * 256 + b2 in
    base64_char (n / 262144 % 64)
    ∷ base64_char (n / 4096 % 64)
    ∷ base64_char (n / 64 % 64)
    ∷ base64_char (n % 64)
    ∷ b64_encode bs

-- The loop over `chunks(4)`: a chunk of one character gives no byte.
unfoldable pub b64_decode : List ℕ → Outcome DecodeError (List ℕ)
b64_decode [] = ok []
b64_decode (c0 ∷ []) = base64_value c0 >>= (λ _. ok [])
b64_decode (c0 ∷ c1 ∷ []) = do
  v0 ← base64_value c0
  v1 ← base64_value c1
  ok ((v0 * 64 + v1) * 4096 / 65536 % 256 ∷ [])
b64_decode (c0 ∷ c1 ∷ c2 ∷ []) = do
  v0 ← base64_value c0
  v1 ← base64_value c1
  v2 ← base64_value c2
  ok (
      ((v0 * 64 + v1) * 64 + v2) * 64 / 65536 % 256
      ∷ ((v0 * 64 + v1) * 64 + v2) * 64 / 256 % 256
      ∷ [])
b64_decode (c0 ∷ c1 ∷ c2 ∷ c3 ∷ s) = do
  v0 ← base64_value c0
  v1 ← base64_value c1
  v2 ← base64_value c2
  v3 ← base64_value c3
  rest ← b64_decode s
  ok (
      (((v0 * 64 + v1) * 64 + v2) * 64 + v3) / 65536 % 256
      ∷ (((v0 * 64 + v1) * 64 + v2) * 64 + v3) / 256 % 256
      ∷ (((v0 * 64 + v1) * 64 + v2) * 64 + v3) % 256
      ∷ rest)
