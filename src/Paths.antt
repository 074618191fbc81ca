-- ===== src/Paths.antt =====
-- `std::path` on Unix: a path as the sequence of its components, by which `Path` compares, joins
-- and takes parents. Server code (crates/netfilum-server/src/path.rs, server.rs) works on these.
use netfilum.Prelude.{
  ◌↔◌, ◌≡◌, refl, Bool, true, false, ◌&&◌, Option, none, some, List, [], ◌∷◌, ◌++◌,
}
use netfilum.Prelude.{◌==◌, if◌then◌else◌, arith}
use netfilum.Prelude.Texts.{Text, text_eq, text_eq_iff, codes}

-- `Component`. On Unix no parsed path has a `prefix`.
pub data Component : Type 0 where
  prefix : Text → Component
  root_dir cur_dir parent_dir : Component
  normal : Text → Component

abbrev pub PathBuf : Type 0
PathBuf = List Component

-- The pieces of a text between its slashes.
abbrev pub cons_first : Text → List Text → List Text
cons_first c [] = c ∷ []
cons_first c (s ∷ ss) = (c ++ s) ∷ ss

unfoldable pub split_slash : Text → List Text
split_slash [] = [] ∷ []
split_slash (c ∷ t) =
    let rest = split_slash t in if c == b'/' then [] ∷ rest else cons_first (c ∷ []) rest

-- A piece as a component: empty pieces and dots are passed over.
abbrev pub piece : Text → List Component
piece s =
    if text_eq s []
    then []
    else if text_eq s (codes ".")
    then []
    else if text_eq s (codes "..")
    then parent_dir ∷ []
    else normal s ∷ []

unfoldable pub pieces : List Text → List Component
pieces [] = []
pieces (s ∷ ss) = piece s ++ pieces ss

-- The first piece of a path that does not begin with a slash: a leading dot is kept.
unfoldable pub first_piece : List Text → List Component
unfolding pieces
first_piece [] = []
first_piece (s ∷ ss) = if text_eq s (codes ".") then cur_dir ∷ pieces ss else pieces (s ∷ ss)

-- `Path::new(s).components()`
unfoldable pub components : Text → List Component
unfolding split_slash pieces first_piece
components [] = []
components (c ∷ t) =
    if c == b'/' then root_dir ∷ pieces (split_slash t) else first_piece (split_slash (c ∷ t))

-- `Path::is_absolute`
unfoldable pub is_absolute : List Component → Bool
is_absolute (root_dir ∷ p) = true
is_absolute _ = false

-- The components that a pushed path adds to one that is not empty.
abbrev pub after_dot : PathBuf → PathBuf
after_dot (cur_dir ∷ q) = q
after_dot q = q

-- `Path::join`: an absolute path takes the place of the first one.
unfoldable pub join : PathBuf → PathBuf → PathBuf
unfolding is_absolute
join [] q = q
join (c ∷ p) q = if is_absolute q then q else (c ∷ p) ++ after_dot q

-- `Path::parent`
unfoldable pub parent : PathBuf → Option PathBuf
parent [] = none
parent (c ∷ []) = elim c [ root_dir ↦ none | prefix _ ↦ none | _ ↦ some [] ]
parent (c ∷ d ∷ p) = elim (parent (d ∷ p)) [ none ↦ some (c ∷ []) | some q ↦ some (c ∷ q) ]

abbrev pub component_eq : Component → Component → Bool
component_eq (prefix s) (prefix t) = text_eq s t
component_eq root_dir root_dir = true
component_eq cur_dir cur_dir = true
component_eq parent_dir parent_dir = true
component_eq (normal s) (normal t) = text_eq s t
component_eq _ _ = false

-- `Path::starts_with`
unfoldable pub path_starts_with : PathBuf → PathBuf → Bool
path_starts_with p [] = true
path_starts_with [] (c ∷ q) = false
path_starts_with (d ∷ p) (c ∷ q) = component_eq d c && path_starts_with p q

-- Equality of paths.
abbrev pub path_eq : PathBuf → PathBuf → Bool
path_eq [] [] = true
path_eq [] (d ∷ q) = false
path_eq (c ∷ p) [] = false
path_eq (c ∷ p) (d ∷ q) = component_eq c d && path_eq p q

component_eq_iff : (c d : Component) → (component_eq c d ≡ true) ↔ (c ≡ d)
component_eq_iff (prefix s) (prefix t) = ground (arith, text_eq_iff s t)
component_eq_iff (normal s) (normal t) = ground (arith, text_eq_iff s t)
component_eq_iff root_dir root_dir = ground arith
component_eq_iff _ _ = ground arith

pub path_eq_iff : (p q : PathBuf) → (path_eq p q ≡ true) ↔ (p ≡ q)
path_eq_iff [] [] = ground arith
path_eq_iff [] (d ∷ q) = ground arith
path_eq_iff (c ∷ p) [] = ground arith
path_eq_iff (c ∷ p) (d ∷ q) = ground (arith, component_eq_iff c d, path_eq_iff p q)

pub path_starts_with_refl : (p : PathBuf) → path_starts_with p p ≡ true
unfolding path_starts_with
path_starts_with_refl [] = refl
path_starts_with_refl (c ∷ p) =
    ground (arith, (component_eq_iff c c).1 refl, path_starts_with_refl p)
