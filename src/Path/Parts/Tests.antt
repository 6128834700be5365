-- ===== src/Path/Parts/Tests.antt =====
-- Tests of the parts of paths.
use obsidian_baritone.Prelude.{◌≡◌, refl, lit, arith}
use obsidian_baritone.Path.Parts.{split_path, join_path, suffix_path, code}
use obsidian_baritone.Path.Parts.Laws.{join_path-split_path}

suffix_note : suffix_path (lit "a/b.md") 2 ≡ lit "a/b (2).md"
unfolding code
suffix_note = refl

join_path-split_path_example :
    join_path (split_path (lit "a/b.md")).0 (split_path (lit "a/b.md")).1 ≡ lit "a/b.md"
join_path-split_path_example = join_path-split_path (lit "a/b.md") (λ e. absurd (omega (arith, e)))
