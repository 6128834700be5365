-- ===== src/Plugin/Ignore/Laws.antt =====
-- apps/plugin/src/ignore/ignore.ts: the last rule that matches decides.
use obsidian_baritone.Prelude.{
  ◌≡◌, refl, ◌∙◌, Bool, true, false, not, List, [], ◌∷◌, ◌++◌, JsString, All, ok,
}
use obsidian_baritone.Unicode.{Platform}
use obsidian_baritone.Path.{normalize_path}
use obsidian_baritone.Plugin.Ignore.{Rule, rule_matches, last_verdict, ignores}

last_verdict-append :
    (before after : List Rule) (path : JsString) (ignored : Bool)
    → last_verdict (before ++ after) path ignored
      ≡ last_verdict after path (last_verdict before path ignored)
unfolding last_verdict
last_verdict-append [] after path ignored = refl
last_verdict-append (rule ∷ before) after path ignored = last_verdict-append before after path _

last_verdict-silent :
    (rules : List Rule) (path : JsString) (ignored : Bool)
    → All (λ rule. rule_matches rule path ≡ false) rules
    → last_verdict rules path ignored ≡ ignored
unfolding last_verdict
last_verdict-silent [] path ignored h = refl
last_verdict-silent (rule ∷ rules) path ignored h =
    rw (h.0) (last_verdict-silent rules path ignored h.1)

-- The last rule that matches the normal form of a path decides whether the path is ignored: it is,
-- unless that rule is negated. The rules after it match nothing there; those before it do not count.
pub ignores-last :
    (os : Platform) (before after : List Rule) (rule : Rule) (raw path : JsString)
    → normalize_path os raw ≡ ok path
    → rule_matches rule path ≡ true
    → All (λ r. rule_matches r path ≡ false) after
    → ignores os (before ++ (rule ∷ after)) raw ≡ not rule.negated
unfolding ignores last_verdict
ignores-last os before after rule raw path normal decides silent =
    rw (normal, ignores)
      (last_verdict-append before (rule ∷ after) path false
        ∙ decided (last_verdict before path false))
  where
    decided : (b : Bool) → last_verdict (rule ∷ after) path b ≡ not rule.negated
    decided b = rw decides (last_verdict-silent after path (not rule.negated) silent)
