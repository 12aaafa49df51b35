-- ===== src/Broker/Confined.antt =====
-- The path of a blob stays inside the storage root, one directory deep.
use cmpe272_finaltest_assesm.Prelude.{
  ℕ, ◌≤◌, ◌≡◌, refl, ap, sym, ◌∙◌, Bool, true, false, not, ◌&&◌, some, [], ◌∷◌, ◌++◌, arith, ◌==◌,
  length, length-append,
}
use cmpe272_finaltest_assesm.Result.{ok}
use cmpe272_finaltest_assesm.Bytes.{Text}
use cmpe272_finaltest_assesm.Text.{split1}
use cmpe272_finaltest_assesm.Broker.Key.{
  is_namespace_char, is_name_char, span, in_bounds, at_dollar, match_name, match_slash,
  key_re_match, has_dotdot, as_path, safe_path,
}

-- Every character is of the class.
unfoldable pub all : (ℕ → Bool) → Text → Bool
all p [] = true
all p (c ∷ s) = p c && all p s

-- The character is not in the text.
unfoldable pub avoids : ℕ → Text → Bool
avoids c [] = true
avoids c (d ∷ s) = not (d == c) && avoids c s

span_sound :
    (p : ℕ → Bool) (s : Text) → ((span p s).0 ++ (span p s).1 ≡ s) × (all p (span p s).0 ≡ true)
unfolding span all
span_sound p [] = (refl, refl)
span_sound p (c ∷ s) = ground (arith, (span_sound p s).0, (span_sound p s).1)

pub namespace_avoids : (s : Text) → all is_namespace_char s ≡ true → avoids b'/' s ≡ true
unfolding all avoids
namespace_avoids [] h = refl
namespace_avoids (c ∷ s) h = ground (arith, namespace_avoids s)

name_avoids : (s : Text) → all is_name_char s ≡ true → avoids b'/' s ≡ true
unfolding all avoids
name_avoids [] h = refl
name_avoids (c ∷ s) h = ground (arith, name_avoids s)

avoids-append :
    (c : ℕ) (s t : Text) → avoids c s ≡ true → avoids c t ≡ true → avoids c (s ++ t) ≡ true
unfolding avoids
avoids-append c [] t h h' = h'
avoids-append c (d ∷ s) t h h' = ground (arith, avoids-append c s t)

dollar_avoids : (s : Text) → at_dollar s ≡ true → (avoids b'/' s ≡ true) × (length s ≤ 1)
unfolding avoids
dollar_avoids [] h = ground arith
dollar_avoids (c ∷ []) h = ground arith
dollar_avoids (c ∷ d ∷ s) h = cc

pub split1-append :
    (sep : ℕ) (s t : Text) → avoids sep s ≡ true → split1 sep (s ++ sep ∷ t) ≡ (s, some t)
unfolding split1 avoids
split1-append sep [] t h = ground arith
split1-append sep (c ∷ s) t h = ground (arith, split1-append sep s t)

dotdot_later : (s t : Text) → has_dotdot (s ++ t) ≡ false → has_dotdot t ≡ false
unfolding has_dotdot
dotdot_later [] t h = h
dotdot_later (c ∷ []) [] h = refl
dotdot_later (c ∷ []) (d ∷ t) h = ground arith
dotdot_later (c ∷ d ∷ s) t h = dotdot_later (d ∷ s) t (ground arith)

-- What a legal key looks like, by its components.
pub record IsConfined (key namespace name : Text) : Type 0 where
  pub joined : key ≡ namespace ++ b'/' ∷ name
  pub namespace_chars : all is_namespace_char namespace ≡ true
  pub namespace_size : (1 ≤ length namespace) × (length namespace ≤ 128)
  pub name_flat : avoids b'/' name ≡ true
  pub name_size : (1 ≤ length name) × (length name ≤ 129)
  pub no_parent : has_dotdot name ≡ false

match_name_sound :
    (s : Text) → match_name s ≡ true → (avoids b'/' s ≡ true) × (1 ≤ length s) × (length s ≤ 129)
match_name_sound s h =
    let (joined, chars) = span_sound is_name_char s in
    let name = (span is_name_char s).0 in
    let rest = (span is_name_char s).1 in
    let sizes = length-append name rest in
    let total = ap length joined in
    let bounds : (in_bounds name ≡ true) × (at_dollar rest ≡ true) = ground arith in
    let (flat, short) = dollar_avoids rest bounds.1 in
    let lo : 1 ≤ length name = ground arith in
    let hi : length name ≤ 128 = ground arith in
    (
      rw joined at (avoids-append b'/' name rest (name_avoids name chars) flat),
      omega arith,
      omega arith,
    )

match_slash_sound :
    (r : Text) → match_slash r ≡ true → (s : Text) × (r ≡ b'/' ∷ s) × (match_name s ≡ true)
match_slash_sound [] h = cc
match_slash_sound (c ∷ s) h = (s, ground arith, ground arith)

key_re_sound :
    (key : Text)
    → key_re_match key ≡ true
    → let namespace = (span is_namespace_char key).0 in
      (in_bounds namespace ≡ true) × (match_slash (span is_namespace_char key).1 ≡ true)
unfolding key_re_match
key_re_sound key h = ground arith

safe_path_guards :
    (key : Text) (r : Text × Text)
    → safe_path key ≡ ok r
    → (key_re_match key ≡ true) × (has_dotdot key ≡ false) × (as_path (split1 b'/' key) ≡ ok r)
unfolding safe_path
safe_path_guards key r h = ground arith

-- A key that is accepted names a file directly in a directory directly below the storage root: the
-- key is the two components and the slash, the directory's name is of letters, digits, `_` and `-`,
-- and the file's name has no slash and no `..`.
pub safe_path-IsConfined :
    (key namespace name : Text)
    → safe_path key ≡ ok (namespace, name)
    → IsConfined key namespace name
safe_path-IsConfined key namespace name h =
    let (matched, no_dots, path) = safe_path_guards key (namespace, name) h in
    let (bounds, slash) = key_re_sound key matched in
    let ns = (span is_namespace_char key).0 in
    let (joined, chars) = span_sound is_namespace_char key in
    let (s, e, named) = match_slash_sound (span is_namespace_char key).1 slash in
    let whole : ns ++ b'/' ∷ s ≡ key = ap (λ r. ns ++ r) (sym e) ∙ joined in
    let (flat, lo, hi) = match_name_sound s named in
    let cut : split1 b'/' key ≡ (ns, some s) =
      ap (split1 b'/') (sym whole) ∙ split1-append b'/' ns s (namespace_avoids ns chars) in
    let found : (ns ≡ namespace) × (s ≡ name) = ground (arith, cut) in
    let sizes : (1 ≤ length ns) × (length ns ≤ 128) = ground arith in
    let dots : has_dotdot (b'/' ∷ s) ≡ false =
      dotdot_later ns (b'/' ∷ s) (ap has_dotdot whole ∙ no_dots) in
    rw (← found.0, ← found.1)
      (record {
        joined = sym whole;
        namespace_chars = chars;
        namespace_size = sizes;
        name_flat = flat;
        name_size = (lo, hi);
        no_parent = dotdot_later (b'/' ∷ []) s dots;
      })
