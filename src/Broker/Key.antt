-- ===== src/Broker/Key.antt =====
-- `_KEY_RE` and `_safe_path` of approach-b-broker-envelope/broker.py.
use cmpe272_finaltest_assesm.Prelude.{
  ℕ, Bool, true, false, not, ◌&&◌, ◌||◌, Option, none, some, [], ◌∷◌, leb, ◌==◌, length,
  if◌then◌else◌,
}
use cmpe272_finaltest_assesm.Result.{Result, ok, err, value_error}
use cmpe272_finaltest_assesm.Bytes.{Text}
use cmpe272_finaltest_assesm.Text.{split1}

-- `[A-Za-z0-9_-]`
abbrev pub is_namespace_char : ℕ → Bool
is_namespace_char c =
    leb b'A' c && leb c b'Z'
    || leb b'a' c && leb c b'z'
    || leb b'0' c && leb c b'9'
    || c == b'_'
    || c == b'-'

-- `[A-Za-z0-9_.-]`
abbrev pub is_name_char : ℕ → Bool
is_name_char c = is_namespace_char c || c == b'.'

abbrev pub cons_front : ℕ → Text × Text → Text × Text
cons_front c (front, back) = (c ∷ front, back)

-- The longest run of a character class, and what follows it.
unfoldable pub span : (ℕ → Bool) → Text → Text × Text
span p [] = ([], [])
span p (c ∷ s) = let rest = cons_front c (span p s) in if p c then rest else ([], c ∷ s)

-- `{1,128}`
abbrev pub in_bounds : Text → Bool
in_bounds s = leb 1 (length s) && leb (length s) 128

-- `$` matches at the end, and before a newline at the end.
abbrev pub at_dollar : Text → Bool
at_dollar [] = true
at_dollar (c ∷ []) = c == b'\n'
at_dollar (c ∷ d ∷ s) = false

abbrev pub match_name : Text → Bool
match_name s = let (name, rest) = span is_name_char s in in_bounds name && at_dollar rest

abbrev pub match_slash : Text → Bool
match_slash [] = false
match_slash (c ∷ s) = c == b'/' && match_name s

-- `_KEY_RE.match(key)`. No class has the slash, so the runs are the only way to match.
unfoldable pub key_re_match : Text → Bool
key_re_match key =
    let (namespace, rest) = span is_namespace_char key in in_bounds namespace && match_slash rest

-- `".." in key`
unfoldable pub has_dotdot : Text → Bool
has_dotdot [] = false
has_dotdot (c ∷ []) = false
has_dotdot (c ∷ d ∷ s) = c == b'.' && d == b'.' || has_dotdot (d ∷ s)

abbrev pub as_path : Text × Option Text → Result (Text × Text)
as_path (namespace, none) = err value_error
as_path (namespace, some name) = ok (namespace, name)

-- The components of the path below the storage root.
unfoldable pub safe_path : Text → Result (Text × Text)
safe_path key =
    if not (key_re_match key) || has_dotdot key then err value_error else as_path (split1 b'/' key)
