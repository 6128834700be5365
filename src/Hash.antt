-- ===== src/Hash.antt =====
-- packages/shared/src/hash/content-hash.ts: content-addressed names `sha256:<hex>`.
pub mod Format
pub mod Tests
use obsidian_baritone.Prelude.{
  ℕ, ◌/◌, ◌%◌, Bool, ◌&&◌, ◌||◌, List, [], ◌∷◌, ◌++◌, JsString, lit, leb, ◌==◌, length, take, drop,
  all, str_eq, if◌then◌else◌, ◌+◌,
}
use obsidian_baritone.Unicode
use obsidian_baritone.Unicode.{Platform, utf8}

-- `HEX[d]`
unfoldable pub hex_digit : ℕ → ℕ
hex_digit d = if leb d 9 then 48 + d else 87 + d

unfoldable pub to_hex : List ℕ → JsString
unfolding hex_digit
to_hex [] = []
to_hex (b ∷ bytes) = hex_digit (b / 16) ∷ hex_digit (b % 16) ∷ to_hex bytes

-- `/[0-9a-f]/`
unfoldable pub is_hex : ℕ → Bool
is_hex c = leb b'0' c && leb c b'9' || leb b'a' c && leb c b'f'

-- `/^sha256:[0-9a-f]{64}$/`
-- `isValidContentHash`
unfoldable pub is_valid_content_hash : JsString → Bool
unfolding is_hex
is_valid_content_hash value =
    str_eq (take 7 value) (lit "sha256:")
    && length (drop 7 value) == 64
    && all is_hex (drop 7 value)

module _ (os : Platform) where
  unfoldable pub hash_bytes : List ℕ → JsString
  unfolding to_hex
  hash_bytes bytes = to_hex (os.sha256 bytes)

  unfoldable pub hash_text : JsString → JsString
  unfolding hash_bytes
  hash_text text = hash_bytes (utf8 text)

  unfoldable pub content_hash : List ℕ → JsString
  unfolding hash_bytes
  content_hash bytes = lit "sha256:" ++ hash_bytes bytes

  unfoldable pub content_hash_text : JsString → JsString
  unfolding hash_text
  content_hash_text text = lit "sha256:" ++ hash_text text
