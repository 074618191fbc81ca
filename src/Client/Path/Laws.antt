-- ===== src/Client/Path/Laws.antt =====
-- What the client's paths are for the server and for WSL: crates/netfilum-client/src/path.rs and
-- `nt_path_to_relative` of crates/netfilum-client/src/mount.rs.
use netfilum.Prelude.{ℕ, ◌≡◌, refl, ap, arith, true, false, List, [], ◌∷◌, ◌++◌, map, All}
use netfilum.Prelude.{◌==◌, if◌then◌else◌}
use netfilum.Prelude.Texts.{Text, codes, replace_byte, trim_start_matches}
use netfilum.Prelude.Results.{ok, err}
use netfilum.Paths.{normal}
use netfilum.Server.Path.{normalize_relative_path}
use netfilum.Server.Path.Spec.{is_separator, is_plain_name, has_separator, rooted, relative_names}
use netfilum.Server.Path.Laws.{join_names, normalize_relative_path-eq-relative_names}
use netfilum.Server.Path.Laws.{normalize_relative_path-join_names}
use netfilum.Client.Path.{windows_path_to_wsl, nt_path_to_relative, to_ascii_lowercase}

abbrev to_slashes : Text → Text
to_slashes = replace_byte b'\\' b'/'

to_slashes-plain : (n : Text) → has_separator n ≡ false → to_slashes n ≡ n
to_slashes-plain [] h = refl
to_slashes-plain (c ∷ n) h = ground (arith, to_slashes-plain n)

to_slashes-append : (s t : Text) → to_slashes (s ++ t) ≡ to_slashes s ++ to_slashes t
to_slashes-append [] t = refl
to_slashes-append (c ∷ s) t = ap (λ l. (if c == b'\\' then b'/' else c) ∷ l) (to_slashes-append s t)

abbrev ArePlain : List Text → Type 0
ArePlain = All (λ s. is_plain_name s ≡ true)

to_slashes-join_names :
    (sep : ℕ) (ns : List Text)
    → is_separator sep ≡ true
    → ArePlain ns
    → to_slashes (join_names sep ns) ≡ join_names b'/' ns
unfolding join_names
to_slashes-join_names sep [] h ps = refl
to_slashes-join_names sep (n ∷ []) h (p, ps) = to_slashes-plain n (ground arith)
to_slashes-join_names sep (n ∷ m ∷ ns) h (p, ps) = ground (
  arith,
  to_slashes-append n (sep ∷ join_names sep (m ∷ ns)),
  to_slashes-plain n (ground arith),
  to_slashes-join_names sep (m ∷ ns) h ps,
)

trim-join_names :
    (n : Text) (ns : List Text)
    → ArePlain (n ∷ ns)
    → trim_start_matches b'/' (join_names b'/' (n ∷ ns)) ≡ join_names b'/' (n ∷ ns)
unfolding join_names
trim-join_names [] ns (p, ps) = absurd (ground arith)
trim-join_names (c ∷ n) [] (p, ps) = ground arith
trim-join_names (c ∷ n) (m ∷ ns) (p, ps) = ground arith

-- A path on a Windows drive, of plain names joined by backslashes or by slashes, is the path of the
-- same names under `/mnt` and the drive's letter in lower case.
pub windows_path_to_wsl-join_names :
    (drive sep : ℕ) (n : Text) (ns : List Text)
    → is_separator sep ≡ true
    → ArePlain (n ∷ ns)
    → windows_path_to_wsl (drive ∷ b':' ∷ sep ∷ join_names sep (n ∷ ns))
      ≡ ok (codes "/mnt/" ++ to_ascii_lowercase drive ∷ b'/' ∷ join_names b'/' (n ∷ ns))
unfolding windows_path_to_wsl
windows_path_to_wsl-join_names drive sep n ns h ps =
    ground (arith, to_slashes-join_names sep (n ∷ ns) h ps, trim-join_names n ns ps)

-- The NT path of plain names, with a backslash in front, is for the server the path of these names:
-- what the client sends, the server accepts.
pub normalize_relative_path-nt_path_to_relative :
    (n : Text) (ns : List Text)
    → ArePlain (n ∷ ns)
    → normalize_relative_path (nt_path_to_relative (b'\\' ∷ join_names b'\\' (n ∷ ns)))
      ≡ ok (map normal (n ∷ ns))
unfolding nt_path_to_relative
normalize_relative_path-nt_path_to_relative n ns ps = ground (
  arith,
  to_slashes-join_names b'\\' (n ∷ ns) refl ps,
  trim-join_names n ns ps,
  normalize_relative_path-join_names b'/' n ns refl ps,
)

trim_rooted : (t : Text) → rooted (trim_start_matches b'/' (to_slashes t)) ≡ false
unfolding rooted
trim_rooted [] = refl
trim_rooted (c ∷ t) = ground (arith, trim_rooted t)

-- No NT path, whatever its text, reaches the server as an absolute path: the server refuses it for
-- traversal alone.
pub nt_path_to_relative-not_absolute :
    (t message : Text)
    → normalize_relative_path (nt_path_to_relative t) ≡ err message
    → message ≡ codes "path traversal is not allowed"
unfolding nt_path_to_relative relative_names
nt_path_to_relative-not_absolute t message h =
    ground (arith, trim_rooted t, normalize_relative_path-eq-relative_names (nt_path_to_relative t))
