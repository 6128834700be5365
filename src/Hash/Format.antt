-- ===== src/Hash/Format.antt =====
-- Every hash that the library computes passes the library's own format test.
use obsidian_baritone.Prelude.{
  ℕ, ◌*◌, ◌/◌, ◌%◌, ◌<◌, ◌≡◌, refl, true, List, [], ◌∷◌, arith, length, all, All, str_eq,
}
use obsidian_baritone.Unicode.{Platform}
use obsidian_baritone.Hash.{
  hex_digit, to_hex, is_hex, is_valid_content_hash, hash_bytes, content_hash,
}

-- Bytes are below 256.
abbrev pub AreBytes : List ℕ → Type 0
AreBytes = All (λ b. b < 256)

hex_digit-is_hex : (d : ℕ) → d < 16 → is_hex (hex_digit d) ≡ true
unfolding hex_digit is_hex
hex_digit-is_hex d h = ground arith

all-to_hex : (bytes : List ℕ) → AreBytes bytes → all is_hex (to_hex bytes) ≡ true
unfolding to_hex
all-to_hex [] h = refl
all-to_hex (b ∷ bytes) h =
    rw (hex_digit-is_hex (b / 16) (omega (arith, h.0)), hex_digit-is_hex (b % 16) (omega arith))
      (all-to_hex bytes h.1)

length-to_hex : (bytes : List ℕ) → length (to_hex bytes) ≡ 2 * length bytes
unfolding to_hex
length-to_hex [] = omega arith
length-to_hex (b ∷ bytes) = omega (arith, length-to_hex bytes)

-- The hash of any bytes has the form that `isValidContentHash` tests, when the digest has 32
-- bytes, as SHA-256 has.
pub content_hash-valid :
    (os : Platform) (bytes : List ℕ)
    → length (os.sha256 bytes) ≡ 32
    → AreBytes (os.sha256 bytes)
    → is_valid_content_hash (content_hash os bytes) ≡ true
unfolding is_valid_content_hash content_hash hash_bytes str_eq
content_hash-valid os bytes h k =
    ground (arith, length-to_hex (os.sha256 bytes), all-to_hex (os.sha256 bytes) k)
