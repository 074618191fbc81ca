-- ===== src/Server/Path/Spec.antt =====
-- What `normalize_relative_path` accepts and returns, without the components of `std::path`: the
-- text is cut at every slash and backslash.
use netfilum.Prelude.{ℕ, Bool, true, false, ◌&&◌, ◌||◌, List, [], ◌∷◌, not}
use netfilum.Prelude.{◌≡◌, ◌==◌, if◌then◌else◌}
use netfilum.Prelude.Texts.{Text, text_eq, codes}
use netfilum.Prelude.Results.{Result, ok, err}
use netfilum.Paths.{Component, normal, cons_first}

abbrev pub is_separator : ℕ → Bool
is_separator c = c == b'/' || c == b'\\'

unfoldable pub split_separators : Text → List Text
split_separators [] = [] ∷ []
split_separators (c ∷ t) =
    let rest = split_separators t in if is_separator c then [] ∷ rest else cons_first (c ∷ []) rest

abbrev pub is_parent_name : Text → Bool
is_parent_name s = text_eq s (codes "..")

abbrev pub is_ignored_name : Text → Bool
is_ignored_name s = text_eq s [] || text_eq s (codes ".")

unfoldable pub climbs : List Text → Bool
climbs [] = false
climbs (s ∷ ss) = is_parent_name s || climbs ss

unfoldable pub kept_names : List Text → List Text
kept_names [] = []
kept_names (s ∷ ss) = let rest = kept_names ss in if is_ignored_name s then rest else s ∷ rest

unfoldable pub rooted : Text → Bool
rooted [] = false
rooted (c ∷ t) = is_separator c

-- The specification of `normalize_relative_path`.
unfoldable pub relative_names : Text → Result Text (List Text)
unfolding rooted climbs kept_names split_separators
relative_names raw =
    if rooted raw
    then err (codes "absolute paths are not allowed")
    else if climbs (split_separators raw)
    then err (codes "path traversal is not allowed")
    else ok (kept_names (split_separators raw))

-- A file name that stays in its directory.
abbrev pub has_separator : Text → Bool
has_separator [] = false
has_separator (c ∷ t) = is_separator c || has_separator t

abbrev pub is_plain_name : Text → Bool
is_plain_name s = not (is_ignored_name s) && not (is_parent_name s) && not (has_separator s)

abbrev pub IsPlain : Component → Type 0
IsPlain (normal s) = is_plain_name s ≡ true
IsPlain _ = ⊥
