-- ===== src/Path/Parts.antt =====
-- packages/shared/src/path/normalize.ts: directory, base name, extension, and the numbered names
-- that resolve collisions.
pub mod Laws
pub mod Tests
use obsidian_baritone.Prelude.{
  ℕ, zero, suc, ◌+◌, ◌-◌, ◌/◌, ◌%◌, Bool, ◌&&◌, Option, none, some, List, [], ◌∷◌, ◌++◌, JsString,
  lit, ltb, ◌==◌, if◌then◌else◌, length, take, nonempty,
}

-- `s.lastIndexOf(separator)`, as what stands before that place and behind it; none is -1.
unfoldable pub split_last : ℕ → JsString → Option (JsString × JsString)
split_last separator [] = none
split_last separator (c ∷ s) = elim (split_last separator s) [
  | some (before, after) ↦ some (c ∷ before, after)
  | none ↦ if c == separator then some ([], s) else none
]

-- `splitPath`
unfoldable pub split_path : JsString → JsString × JsString
split_path canonical_path = elim (split_last b'/' canonical_path) [
  | none ↦ ([], canonical_path)
  | some (dir, base) ↦ (dir, base)
]

-- `joinPath`
unfoldable pub join_path : JsString → JsString → JsString
join_path parent_dir base_name =
    if nonempty parent_dir then parent_dir ++ (b'/' ∷ base_name) else base_name

-- `extname` of a base name
unfoldable pub extension : JsString → JsString
extension base = elim (split_last b'.' base) [
  | none ↦ []
  | some (before, after) ↦ if length before == 0 then [] else b'.' ∷ after
]

unfoldable pub extname : JsString → JsString
extname canonical_path = extension (split_path canonical_path).1

-- The digits of `n`; a fuel above `n` is enough (`value-decimal`).
unfoldable pub digits_from : ℕ → ℕ → JsString
digits_from zero n = []
digits_from (suc fuel) n =
    let last = b'0' + n % 10 in
    let front = digits_from fuel (n / 10) in if ltb n 10 then last ∷ [] else front ++ (last ∷ [])

-- `${n}`
unfoldable pub decimal : ℕ → JsString
decimal n = digits_from (suc n) n

-- The base name of `suffixPath`.
unfoldable pub suffix_base : JsString → ℕ → JsString
suffix_base base n =
    let ext = extname base in
    let stem = if nonempty ext then take (length base - length ext) base else base in
    stem ++ (lit " (" ++ (decimal n ++ (lit ")" ++ ext)))

-- `suffixPath`
unfoldable pub suffix_path : JsString → ℕ → JsString
suffix_path canonical_path n =
    let (dir, base) = split_path canonical_path in join_path dir (suffix_base base n)

-- Opens the file's functions, for tests that run them.
unfoldable pub code : Unit {0}
unfolding split_last split_path join_path extension extname digits_from decimal suffix_base
    suffix_path
code = tt
