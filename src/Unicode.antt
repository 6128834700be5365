-- ===== src/Unicode.antt =====
-- What the code uses of the platform: text encoding, letters, and the functions of the JavaScript
-- engine and of Web Crypto that stand outside the repository, which are parameters.
pub mod Samples
use obsidian_baritone.Prelude.{
  ℕ, ◌+◌, ◌-◌, ◌*◌, ◌/◌, ◌%◌, Bool, ◌&&◌, List, [], ◌∷◌, ◌++◌, JsString, leb, ltb, if◌then◌else◌,
}

-- `nfc` is `String.prototype.normalize('NFC')`, `lower` is `toLowerCase`, `sha256` is
-- `crypto.subtle.digest('SHA-256', …)` from bytes to bytes.
pub record Platform : Type 0 where
  pub nfc : JsString → JsString
  pub lower : JsString → JsString
  pub sha256 : List ℕ → List ℕ

unfoldable pub is_high_surrogate : ℕ → Bool
is_high_surrogate u = leb 0xd800 u && leb u 0xdbff

unfoldable pub is_low_surrogate : ℕ → Bool
is_low_surrogate u = leb 0xdc00 u && leb u 0xdfff

-- The bytes of one code point.
unfoldable pub encode_code_point : ℕ → List ℕ
encode_code_point c =
    if ltb c 0x80
    then c ∷ []
    else if ltb c 0x800
    then (0xc0 + c / 64) ∷ (0x80 + c % 64) ∷ []
    else if ltb c 0x10000
    then (0xe0 + c / 4096) ∷ (0x80 + (c / 64) % 64) ∷ (0x80 + c % 64) ∷ []
    else (0xf0 + c / 262144)
      ∷ (0x80 + (c / 4096) % 64)
      ∷ (0x80 + (c / 64) % 64)
      ∷ (0x80 + c % 64)
      ∷ []

-- A surrogate with no partner is encoded as U+FFFD.
unfoldable pub encode_unit : ℕ → List ℕ
encode_unit u = encode_code_point (if leb 0xd800 u && leb u 0xdfff then 0xfffd else u)

-- `new TextEncoder().encode(s)`
unfoldable pub utf8 : JsString → List ℕ
utf8 [] = []
utf8 (u ∷ []) = encode_unit u
utf8 (u ∷ v ∷ s) =
    let pair = encode_code_point (0x10000 + (u - 0xd800) * 1024 + (v - 0xdc00)) ++ utf8 s in
    let single = encode_unit u ++ utf8 (v ∷ s) in
    if is_high_surrogate u && is_low_surrogate v then pair else single

-- Opens the file's functions, for tests that run them.
unfoldable pub code : Unit {0}
unfolding is_high_surrogate is_low_surrogate encode_code_point encode_unit utf8
code = tt
