-- ===== src/Topics.antt =====
-- src/topics.go: wildcard topics.
use goctopus.Prelude.{
  ◌==◌, if◌then◌else◌, decide, Text, Text-discrete, Bool, false, not, ◌||◌, none, some, [], ◌∷◌,
  nat_key,
}
use goctopus.Message.{Platform}

-- strings.ContainsAny(key, "*?[")
unfoldable pub has_wildcard : Text → Bool
has_wildcard [] = false
has_wildcard (c ∷ key) = c == b'*' || c == b'?' || c == b'[' || has_wildcard key

unfoldable pub key_matches : Platform → Text → Text → Bool
unfolding has_wildcard
key_matches p pattern_key key =
    if not (has_wildcard pattern_key)
    then decide (Text-discrete pattern_key key)
    else elim (p.path_match pattern_key key) [ none ↦ false | some matched ↦ matched ]
