-- ===== src/Hash/Tests.antt =====
-- Tests of the hash format, on a digest of zero bytes.
use obsidian_baritone.Prelude.{ℕ, zero, suc, ◌≡◌, refl, true, [], ◌∷◌, arith}
use obsidian_baritone.Unicode.Samples.{plain_platform, zeros}
use obsidian_baritone.Hash.{is_valid_content_hash, content_hash}
use obsidian_baritone.Hash.Format.{AreBytes, content_hash-valid}

zeros-AreBytes : (n : ℕ) → AreBytes (zeros n)
zeros-AreBytes zero = tt
zeros-AreBytes (suc n) = (omega arith, zeros-AreBytes n)

content_hash-valid_example : is_valid_content_hash (content_hash plain_platform (1 ∷ 2 ∷ [])) ≡ true
content_hash-valid_example = content_hash-valid plain_platform (1 ∷ 2 ∷ []) refl (zeros-AreBytes 32)
