-- ===== src/Plugin/Ignore.antt =====
-- apps/plugin/src/ignore/ignore.ts. A glob is compiled to the parts of its regular expression, which
-- are matched here as the expression would be: `.` is any unit but a line terminator.
pub mod Laws
pub mod Tests
use obsidian_baritone.Prelude.{
  ℕ, Bool, true, false, not, ◌&&◌, ◌||◌, ◌==◌, Option, none, some, List, [], ◌∷◌, ◌++◌, JsString,
  lit, if◌then◌else◌, any, filter, map, Result, ok, err,
}
use obsidian_baritone.Unicode.{Platform}
use obsidian_baritone.Path.{normalize_path, to_slash, trim_leading, trim_trailing}
use obsidian_baritone.RateLimit.{trim}

-- `DEFAULT_IGNORE_PATTERNS`
abbrev pub default_ignore_patterns : List JsString
default_ignore_patterns =
    lit ".obsidian/workspace*.json"
    ∷ lit ".trash/"
    ∷ lit ".git/"
    ∷ lit ".DS_Store"
    ∷ lit "**/.DS_Store"
    ∷ []

-- A part of the expression: `.*`, `[^/]*`, `[^/]`, or a unit that stands for itself.
pub data GlobPart : Type 0 where
  anything : GlobPart
  in_segment : GlobPart
  one_unit : GlobPart
  exactly : ℕ → GlobPart

pub record Rule : Type 0 where
  pub negated : Bool
  pub directory_only : Bool
  pub anchored : Bool
  pub parts : List GlobPart

-- The loop of `globToRegex`.
unfoldable pub glob_parts : JsString → List GlobPart
glob_parts [] = []
glob_parts (c ∷ []) =
    if c == b'*' then in_segment ∷ [] else if c == b'?' then one_unit ∷ [] else exactly c ∷ []
glob_parts (c ∷ d ∷ p) =
    let after = glob_parts p in
    let rest = glob_parts (d ∷ p) in
    if (c == b'*') && (d == b'*')
    then anything ∷ after
    else if c == b'*'
    then in_segment ∷ rest
    else if c == b'?'
    then one_unit ∷ rest
    else exactly c ∷ rest

-- `p` of `globToRegex`, behind its replacements.
unfoldable pub glob_body : JsString → Bool → JsString
glob_body pattern directory_only =
    let p = trim_leading (map to_slash pattern) in if directory_only then trim_trailing p else p

unfoldable pub ends_with : ℕ → JsString → Bool
ends_with c [] = false
ends_with c (u ∷ []) = u == c
ends_with c (u ∷ v ∷ s) = ends_with c (v ∷ s)

unfoldable pub rule_of : Bool → JsString → Option Rule
rule_of negated [] = none
rule_of negated (c ∷ body) =
    let directory_only = ends_with b'/' (c ∷ body) in
    let p = glob_body (c ∷ body) directory_only in
    some (record {
      negated = negated;
      directory_only = directory_only;
      anchored = any (λ u. u == b'/') p;
      parts = glob_parts p;
    })

-- `parseRule`, behind `trim`.
unfoldable pub parse_trimmed : JsString → Option Rule
parse_trimmed [] = none
parse_trimmed (c ∷ rest) =
    if c == b'#' then none else if c == b'!' then rule_of true rest else rule_of false (c ∷ rest)

unfoldable pub parse_rule : JsString → Option Rule
parse_rule raw = parse_trimmed (trim raw)

-- The units that `.` does not match.
abbrev pub is_line_end : ℕ → Bool
is_line_end u = (u == 10) || (u == 13) || (u == 8232) || (u == 8233)

-- What follows some units that all pass a test: `test*` and then `next`.
unfoldable pub after_some : (ℕ → Bool) → (JsString → Bool) → JsString → Bool
after_some test next [] = next []
after_some test next (u ∷ s) = let later = after_some test next s in next (u ∷ s) || test u && later

-- The end of the expression: `$`, or `(/.*)?$`.
unfoldable pub at_end : Bool → JsString → Bool
at_end directory_only [] = true
at_end directory_only (u ∷ s) = directory_only && (u == b'/') && not (any is_line_end s)

unfoldable pub matches_parts : Bool → List GlobPart → JsString → Bool
matches_parts directory_only [] s = at_end directory_only s
matches_parts directory_only (anything ∷ parts) s =
    after_some (λ u. not (is_line_end u)) (matches_parts directory_only parts) s
matches_parts directory_only (in_segment ∷ parts) s =
    after_some (λ u. not (u == b'/')) (matches_parts directory_only parts) s
matches_parts directory_only (one_unit ∷ parts) [] = false
matches_parts directory_only (one_unit ∷ parts) (u ∷ s) =
    let rest = matches_parts directory_only parts s in not (u == b'/') && rest
matches_parts directory_only (exactly c ∷ parts) [] = false
matches_parts directory_only (exactly c ∷ parts) (u ∷ s) =
    let rest = matches_parts directory_only parts s in (u == c) && rest

-- What follows a slash, for the prefix `.*/`.
unfoldable pub after_slash : (JsString → Bool) → JsString → Bool
after_slash next [] = false
after_slash next (u ∷ s) = (u == b'/') && next s

-- `rule.regex.test(path)`
unfoldable pub rule_matches : Rule → JsString → Bool
rule_matches rule path =
    let here = matches_parts rule.directory_only rule.parts in
    if rule.anchored
    then here path
    else here path || after_some (λ u. not (is_line_end u)) (after_slash here) path

abbrev pub parse_rules : List JsString → List Rule
parse_rules [] = []
parse_rules (raw ∷ patterns) =
    let rest = parse_rules patterns in
    elim (parse_rule raw) [ none ↦ rest | some rule ↦ rule ∷ rest ]

-- The constructor: the default patterns, then the shared ones, then those of the device.
unfoldable pub sync_ignore : List JsString → List JsString → List Rule
sync_ignore common own = parse_rules (default_ignore_patterns ++ common ++ own)

-- The loop of `ignores`.
unfoldable pub last_verdict : List Rule → JsString → Bool → Bool
last_verdict [] path ignored = ignored
last_verdict (rule ∷ rules) path ignored =
    last_verdict rules path (if rule_matches rule path then not rule.negated else ignored)

unfoldable pub ignores : Platform → List Rule → JsString → Bool
ignores os rules raw = elim (normalize_path os raw) [
  | err e ↦ true
  | ok path ↦ last_verdict rules path false
]

unfoldable pub filter_paths : Platform → List Rule → List JsString → List JsString
filter_paths os rules paths = filter (λ path. not (ignores os rules path)) paths

-- Opens the file's functions, for tests that run them.
unfoldable pub code : Unit {0}
unfolding glob_parts glob_body ends_with rule_of parse_trimmed parse_rule after_some at_end
    matches_parts after_slash rule_matches sync_ignore last_verdict ignores filter_paths
code = tt
