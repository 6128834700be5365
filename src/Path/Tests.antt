-- ===== src/Path/Tests.antt =====
-- Tests of path normalisation on a platform whose text is in normal form as it stands.
use obsidian_baritone.Prelude.{◌≡◌, refl, lit, ok, str_eq}
use obsidian_baritone.Unicode.{
  is_high_surrogate, is_low_surrogate, encode_unit, encode_code_point, utf8,
}
use obsidian_baritone.Unicode.Samples.{plain_platform}
use obsidian_baritone.Path.{
  normalize_path, check_path, clean_path, trim_trailing, trim_leading, collapse_slashes, to_slash,
  byte_length, segments_error, split, segment_error, is_illegal_char, ends_badly, is_reserved,
  before_dot,
}
use obsidian_baritone.Path.Canonical.{IsCanonical, normalize_path-IsCanonical, normalize_path-fixed}

cleaned : normalize_path plain_platform (lit "/notes//a.md/") ≡ ok (lit "notes/a.md")
unfolding normalize_path check_path clean_path trim_trailing trim_leading collapse_slashes to_slash
    byte_length is_high_surrogate encode_unit encode_code_point segments_error split segment_error
    str_eq is_illegal_char ends_badly is_reserved before_dot is_low_surrogate utf8
cleaned = refl

normalize_path-IsCanonical_example : IsCanonical plain_platform (lit "notes/a.md")
normalize_path-IsCanonical_example =
    normalize_path-IsCanonical plain_platform (lit "/notes//a.md/") (lit "notes/a.md") cleaned

note-IsCanonical : IsCanonical plain_platform (lit "notes/a.md")
note-IsCanonical =
    normalize_path-IsCanonical plain_platform (lit "/notes//a.md/") (lit "notes/a.md") cleaned

normalize_path-fixed_example :
    normalize_path plain_platform (lit "notes/a.md") ≡ ok (lit "notes/a.md")
normalize_path-fixed_example =
    normalize_path-fixed plain_platform (lit "notes/a.md") note-IsCanonical refl
