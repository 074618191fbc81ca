-- ===== src/Server/Path/Laws.antt =====
-- What `normalize_relative_path` computes.
use netfilum.Prelude.{
  ℕ, ◌≡◌, refl, sym, ap, subst, ◌∙◌, arith, true, false, List, [], ◌∷◌, ◌++◌, map,
}
use netfilum.Prelude.{if◌then◌else◌, append-nil, append_assoc, All, Bool-cases}
use netfilum.Prelude.{inl, inr}
use netfilum.Prelude.Texts.{Text, codes, replace_byte, text_eq_iff}
use netfilum.Prelude.Results.{Result, ok, err, map_ok}
use netfilum.Paths.{normal, PathBuf, cons_first, split_slash, pieces, first_piece}
use netfilum.Paths.{is_absolute}
use netfilum.Server.Path.{clean_components, normalize_relative_path}
use netfilum.Server.Path.Spec.{is_separator, split_separators, climbs, kept_names, rooted}
use netfilum.Server.Path.Spec.{relative_names, is_plain_name, IsPlain, has_separator}
use netfilum.Server.Path.Spec.{is_ignored_name}

abbrev to_slashes : Text → Text
to_slashes = replace_byte b'\\' b'/'

split_slash-replace : (t : Text) → split_slash (to_slashes t) ≡ split_separators t
unfolding split_slash split_separators
split_slash-replace [] = refl
split_slash-replace (c ∷ t) = ground (arith, split_slash-replace t)

-- The path that the loop returns, or its error, for pieces that follow a path built so far.
abbrev outcome : PathBuf → List Text → Result Text PathBuf
outcome clean ss =
    if climbs ss
    then err (codes "path traversal is not allowed")
    else ok (clean ++ map normal (kept_names ss))

clean_components-pieces :
    (clean : PathBuf) (ss : List Text) → clean_components clean (pieces ss) ≡ outcome clean ss
unfolding clean_components pieces climbs kept_names
clean_components-pieces clean [] = rw append-nil
clean_components-pieces clean (s ∷ ss) = ground (
  arith,
  text_eq_iff s (codes ".."),
  text_eq_iff s (codes "."),
  text_eq_iff s [],
  clean_components-pieces clean ss,
  clean_components-pieces (clean ++ (normal s ∷ [])) ss,
  append_assoc clean (normal s ∷ []) (map normal (kept_names ss)),
)

is_absolute-pieces : (ss : List Text) → is_absolute (pieces ss) ≡ false
unfolding pieces is_absolute
is_absolute-pieces [] = refl
is_absolute-pieces (s ∷ ss) = ground (arith, is_absolute-pieces ss)

clean_components-first_piece :
    (ss : List Text)
    → (is_absolute (first_piece ss) ≡ false)
      × (clean_components [] (first_piece ss) ≡ outcome [] ss)
unfolding first_piece clean_components climbs kept_names is_absolute
clean_components-first_piece [] = ground arith
clean_components-first_piece (s ∷ ss) = ground (
  arith,
  text_eq_iff s (codes "."),
  is_absolute-pieces (s ∷ ss),
  clean_components-pieces [] ss,
  clean_components-pieces [] (s ∷ ss),
)

-- For every text, `normalize_relative_path` returns what the specification says: an error if the
-- text begins with a slash or a backslash, another error if one of the pieces between slashes and
-- backslashes is `..`, and otherwise the pieces in order, without the empty ones and the dots.
pub normalize_relative_path-eq-relative_names :
    (raw : Text) → normalize_relative_path raw ≡ map_ok (map normal) (relative_names raw)
unfolding normalize_relative_path relative_names
normalize_relative_path-eq-relative_names [] = ground arith
normalize_relative_path-eq-relative_names (c ∷ t) = ground (
  arith,
  split_slash-replace (c ∷ t),
  clean_components-first_piece (split_slash (to_slashes (c ∷ t))),
)

-- The pieces of a cut text hold no separator.
abbrev Whole : Text → Type 0
Whole s = has_separator s ≡ false

Whole-cons_first :
    (c : ℕ) (ss : List Text)
    → is_separator c ≡ false
    → All Whole ss
    → All Whole (cons_first (c ∷ []) ss)
Whole-cons_first c [] h a = ground arith
Whole-cons_first c (s ∷ ss) h (w, a) = (ground arith, a)

Whole-split_separators : (t : Text) → All Whole (split_separators t)
unfolding split_separators
Whole-split_separators [] = (refl, tt)
Whole-split_separators (c ∷ t) = elim (Bool-cases (is_separator c)) [
  | inl e ↦ rw e (refl, Whole-split_separators t)
  | inr e ↦ rw e (Whole-cons_first c (split_separators t) e (Whole-split_separators t))
]

IsPlain-kept_names :
    (ss : List Text) → climbs ss ≡ false → All Whole ss → All IsPlain (map normal (kept_names ss))
unfolding kept_names climbs
IsPlain-kept_names [] h a = tt
IsPlain-kept_names (s ∷ ss) h (w, a) = elim (Bool-cases (is_ignored_name s)) [
  | inl e ↦ rw e (IsPlain-kept_names ss (ground arith) a)
  | inr e ↦ rw e (ground arith, IsPlain-kept_names ss (ground arith) a)
]

relative_names-IsPlain :
    (raw : Text) (p : PathBuf) → map_ok (map normal) (relative_names raw) ≡ ok p → All IsPlain p
unfolding relative_names
relative_names-IsPlain raw p h = elim (Bool-cases (climbs (split_separators raw))) [
  | inl e ↦ absurd (ground arith)
  | inr e ↦
      subst (All IsPlain) (ground arith)
        (IsPlain-kept_names (split_separators raw) e (Whole-split_separators raw))
]

-- Every component of a path that is accepted is a plain name: it is not empty, is neither `.` nor
-- `..`, and holds no slash and no backslash.
pub normalize_relative_path-IsPlain :
    (raw : Text) (p : PathBuf) → normalize_relative_path raw ≡ ok p → All IsPlain p
normalize_relative_path-IsPlain raw p h =
    relative_names-IsPlain raw p (sym (normalize_relative_path-eq-relative_names raw) ∙ h)

-- Names written one after the other with a separator between them.
unfoldable pub join_names : ℕ → List Text → Text
join_names sep [] = []
join_names sep (n ∷ []) = n
join_names sep (n ∷ m ∷ ns) = n ++ sep ∷ join_names sep (m ∷ ns)

split_separators-name : (n : Text) → Whole n → split_separators n ≡ n ∷ []
unfolding split_separators
split_separators-name [] w = refl
split_separators-name (c ∷ n) w = ground (arith, split_separators-name n)

split_separators-append :
    (n : Text) (sep : ℕ) (t : Text)
    → is_separator sep ≡ true
    → Whole n
    → split_separators (n ++ sep ∷ t) ≡ n ∷ split_separators t
unfolding split_separators
split_separators-append [] sep t h w = ground arith
split_separators-append (c ∷ n) sep t h w = ground (arith, split_separators-append n sep t h)

abbrev ArePlain : List Text → Type 0
ArePlain = All (λ s. is_plain_name s ≡ true)

split_separators-join_names :
    (sep : ℕ) (n : Text) (ns : List Text)
    → is_separator sep ≡ true
    → ArePlain (n ∷ ns)
    → split_separators (join_names sep (n ∷ ns)) ≡ n ∷ ns
unfolding join_names
split_separators-join_names sep n [] h (p, _) = split_separators-name n (ground arith)
split_separators-join_names sep n (m ∷ ns) h (p, ps) =
    split_separators-append n sep (join_names sep (m ∷ ns)) h (ground arith)
    ∙ ap (λ l. n ∷ l) (split_separators-join_names sep m ns h ps)

kept_names-plain : (ns : List Text) → ArePlain ns → (kept_names ns ≡ ns) × (climbs ns ≡ false)
unfolding kept_names climbs
kept_names-plain [] h = (refl, refl)
kept_names-plain (n ∷ ns) (p, ps) = ground (arith, kept_names-plain ns ps)

rooted-join_names :
    (sep : ℕ) (n : Text) (ns : List Text)
    → ArePlain (n ∷ ns)
    → rooted (join_names sep (n ∷ ns)) ≡ false
unfolding join_names rooted
rooted-join_names sep [] ns (p, ps) = absurd (ground arith)
rooted-join_names sep (c ∷ n) [] (p, ps) = ground arith
rooted-join_names sep (c ∷ n) (m ∷ ns) (p, ps) = ground arith

-- Plain names, one at least, that are joined by slashes or by backslashes come back in order.
pub normalize_relative_path-join_names :
    (sep : ℕ) (n : Text) (ns : List Text)
    → is_separator sep ≡ true
    → ArePlain (n ∷ ns)
    → normalize_relative_path (join_names sep (n ∷ ns)) ≡ ok (map normal (n ∷ ns))
unfolding relative_names
normalize_relative_path-join_names sep n ns h ps = rw (
  normalize_relative_path-eq-relative_names,
  split_separators-join_names sep n ns h ps,
  rooted-join_names sep n ns ps,
  (kept_names-plain (n ∷ ns) ps).0,
  (kept_names-plain (n ∷ ns) ps).1,
)
