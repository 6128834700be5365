-- ===== src/Unicode/Samples.antt =====
-- A platform for tests: text that is in normal form and lower case as it stands, and a digest of 32
-- zero bytes.
use obsidian_baritone.Prelude.{ℕ, zero, suc, List, [], ◌∷◌}
use obsidian_baritone.Unicode.{Platform}

abbrev pub zeros : ℕ → List ℕ
zeros zero = []
zeros (suc n) = 0 ∷ zeros n

abbrev pub plain_platform : Platform
plain_platform = record { nfc = λ s. s; lower = λ s. s; sha256 = λ bytes. zeros 32 }
