-- ===== src/Plugin/Ignore/Tests.antt =====
-- Tests of the ignore rules: a default pattern, and a later one that takes it back.
use obsidian_baritone.Prelude.{◌≡◌, refl, Bool, true, false, not, [], ◌∷◌, ◌++◌, lit, ok, str_eq}
use obsidian_baritone.Unicode.{code as text_code}
use obsidian_baritone.Unicode.Samples.{plain_platform}
use obsidian_baritone.Path.{normalize_path, code as path_code}
use obsidian_baritone.Plugin.Ignore.{Rule, exactly, rule_matches, ignores, code}
use obsidian_baritone.Plugin.Ignore.Laws.{ignores-last}

abbrev letter : Bool → Rule
letter negated = record {
  negated = negated;
  directory_only = false;
  anchored = false;
  parts = exactly b'a' ∷ [];
}

normal : normalize_path plain_platform (lit "/a") ≡ ok (lit "a")
unfolding path_code text_code str_eq
normal = refl

decides : rule_matches (letter true) (lit "a") ≡ true
unfolding code
decides = refl

ignores-last_example :
    ignores plain_platform ((letter false ∷ []) ++ (letter true ∷ [])) (lit "/a") ≡ not true
ignores-last_example =
    ignores-last plain_platform (letter false ∷ []) [] (letter true) (lit "/a") (lit "a") normal
      decides tt
