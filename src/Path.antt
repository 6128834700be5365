-- ===== src/Path.antt =====
-- packages/shared/src/path/normalize.ts: canonical vault paths. `Path/Parts` has its functions on
-- parts of a path.
pub mod Parts
pub mod Canonical
pub mod Tests
mod Idempotent
use obsidian_baritone.Prelude.{
  ℕ, suc, ◌+◌, ◌-◌, ◌*◌, ◌/◌, ◌%◌, ◌<◌, ◌≡◌, Bool, true, false, ◌&&◌, ◌||◌, Option, none, some,
  List, [], ◌∷◌, ◌++◌, JsString, lit, leb, ltb, ◌==◌, if◌then◌else◌, length, any, take, drop,
  str_eq, nonempty, Result, ok, err, ◌>>=◌, returns, map,
}
use obsidian_baritone.Unicode.{Platform, utf8}

-- `MAX_SEGMENT_BYTES`
abbrev pub max_segment_bytes : ℕ
max_segment_bytes = 255

-- `MAX_PATH_BYTES`
abbrev pub max_path_bytes : ℕ
max_path_bytes = 1024

-- `WINDOWS_RESERVED`
abbrev pub windows_reserved : List JsString
windows_reserved = map lit (
    "con" ∷ "prn" ∷ "aux" ∷ "nul" ∷ "com1" ∷ "com2" ∷ "com3" ∷ "com4" ∷ "com5" ∷ "com6" ∷ "com7"
    ∷ "com8" ∷ "com9" ∷ "lpt1" ∷ "lpt2" ∷ "lpt3" ∷ "lpt4" ∷ "lpt5" ∷ "lpt6" ∷ "lpt7" ∷ "lpt8"
    ∷ "lpt9" ∷ [])

-- `ILLEGAL_CHARS`
unfoldable pub is_illegal_char : ℕ → Bool
is_illegal_char c =
    c == b'<'
    || c == b'>'
    || c == b':'
    || c == b'"'
    || c == 92
    || c == b'|'
    || c == b'?'
    || c == b'*'
    || leb c 31

-- The `reason` of a `PathValidationError`.
pub data PathReason : Type 0 where
  empty_path : PathReason
  path_too_long : PathReason
  empty_segment : PathReason
  dot_segment : PathReason
  segment_too_long : PathReason
  illegal_character : PathReason
  trailing_space_or_dot : PathReason
  reserved_name : PathReason

pub record PathValidationError : Type 0 where
  pub reason : PathReason
  pub path : JsString

unfoldable pub byte_length : JsString → ℕ
unfolding utf8
byte_length s = length (utf8 s)

-- `replace(/\\/g, '/')`, unit by unit
unfoldable pub to_slash : ℕ → ℕ
to_slash c = if c == 92 then b'/' else c

-- `replace(/\/+/g, '/')`
unfoldable pub collapse_slashes : JsString → JsString
collapse_slashes [] = []
collapse_slashes (c ∷ []) = c ∷ []
collapse_slashes (c ∷ d ∷ s) =
    let rest = collapse_slashes (d ∷ s) in if c == b'/' && d == b'/' then rest else c ∷ rest

-- `replace(/^\/+/, '')`
unfoldable pub trim_leading : JsString → JsString
trim_leading [] = []
trim_leading (c ∷ s) = let rest = trim_leading s in if c == b'/' then rest else c ∷ s

-- `replace(/\/+$/, '')`
unfoldable pub trim_trailing : JsString → JsString
trim_trailing [] = []
trim_trailing (c ∷ s) =
    let rest = trim_trailing s in if c == b'/' && length rest == 0 then [] else c ∷ rest

abbrev pub cons_head : ℕ → List JsString → List JsString
cons_head c [] = (c ∷ []) ∷ []
cons_head c (seg ∷ segs) = (c ∷ seg) ∷ segs

-- `split(separator)` at one code unit
unfoldable pub split : ℕ → JsString → List JsString
split separator [] = [] ∷ []
split separator (c ∷ s) =
    let rest = split separator s in if c == separator then [] ∷ rest else cons_head c rest

-- `/[ .]$/`
unfoldable pub ends_badly : JsString → Bool
ends_badly [] = false
ends_badly (c ∷ []) = c == b' ' || c == b'.'
ends_badly (_ ∷ c ∷ s) = ends_badly (c ∷ s)

-- `seg.split('.')[0]`
unfoldable pub before_dot : JsString → JsString
before_dot [] = []
before_dot (c ∷ s) = let rest = before_dot s in if c == b'.' then [] else c ∷ rest

module _ (os : Platform) where
  -- `WINDOWS_RESERVED.has(base)`
  unfoldable pub is_reserved : JsString → Bool
  is_reserved seg = any (str_eq (os.lower (before_dot seg))) windows_reserved

  -- `validateSegment`: the reason of its exception, if it throws one
  unfoldable pub segment_error : JsString → Option PathReason
  segment_error seg =
      if length seg == 0
      then some empty_segment
      else if str_eq seg (lit ".") || str_eq seg (lit "..")
      then some dot_segment
      else if ltb max_segment_bytes (byte_length seg)
      then some segment_too_long
      else if any is_illegal_char seg
      then some illegal_character
      else if ends_badly seg
      then some trailing_space_or_dot
      else if is_reserved seg
      then some reserved_name
      else none

  -- The loop over the segments: the first exception.
  unfoldable pub segments_error : List JsString → Option PathReason
  segments_error [] = none
  segments_error (seg ∷ segs) = elim (segment_error seg) [
    | some reason ↦ some reason
    | none ↦ segments_error segs
  ]

  -- The text of `normalizePath` up to its checks.
  unfoldable pub clean_path : JsString → JsString
  clean_path raw = trim_trailing (trim_leading (collapse_slashes (map to_slash (os.nfc raw))))

  unfoldable pub check_path : JsString → JsString → Result PathValidationError JsString
  check_path raw p =
      if length p == 0
      then err (record { reason = empty_path; path = raw })
      else if ltb max_path_bytes (byte_length p)
      then err (record { reason = path_too_long; path = raw })
      else elim (segments_error (split b'/' p)) [
        | some reason ↦ err (record { reason = reason; path = raw })
        | none ↦ ok p
      ]

  -- `normalizePath`
  unfoldable pub normalize_path : JsString → Result PathValidationError JsString
  normalize_path raw = check_path raw (clean_path raw)

  -- `isValidPath`
  unfoldable pub is_valid_path : JsString → Bool
  is_valid_path raw = returns (normalize_path raw)

  -- `caseFoldPath`
  unfoldable pub case_fold_path : JsString → JsString
  case_fold_path canonical_path = os.lower canonical_path

-- Opens the file's functions, for tests that run them.
unfoldable pub code : Unit {0}
unfolding is_illegal_char byte_length to_slash collapse_slashes trim_leading trim_trailing split
    ends_badly before_dot is_reserved segment_error segments_error clean_path check_path
    normalize_path is_valid_path case_fold_path
code = tt
