-- ===== src/Cli.antt =====
-- src/cli.rs: the lines that the program prints on the terminal. Standard error is the parameter
-- `Stderr`; what `write!` and `flush` return is dropped by the source.
pub mod Colors
use netfilum.Prelude.{Bool, true, false, Option, none, some, List, [], ◌∷◌, ◌++◌}
use netfilum.Prelude.Texts.{Text, codes}

pub record Stderr : Type 1 where
  pub State : Type 0
  pub is_terminal : State → Bool
  pub write : Text → State → State
  pub flush : State → State

abbrev pub escape : Text
escape = 27 ∷ []

abbrev pub green : Text
green = escape ++ codes "[32m"

abbrev pub yellow : Text
yellow = escape ++ codes "[33m"

abbrev pub red : Text
red = escape ++ codes "[31m"

abbrev pub cyan : Text
cyan = escape ++ codes "[36m"

abbrev pub bold : Text
bold = escape ++ codes "[1m"

abbrev pub reset : Text
reset = escape ++ codes "[0m"

-- Which of `print_info`, `print_warn` and `print_error` prints.
pub data Level : Type 0 where
  info warning error : Level

abbrev pub color_of : Level → Text
color_of info = green
color_of warning = yellow
color_of error = red

-- A value as `highlight` gives it, on a terminal with colors or without.
unfoldable pub highlighted : Bool → Text → Text
highlighted true value = bold ++ (cyan ++ (value ++ reset))
highlighted false value = value

-- What the three functions hand to `write!`.
unfoldable pub line : Bool → Level → Text → Text → Text
line true level label message =
    bold ++ (color_of level ++ (label ++ (reset ++ (codes " " ++ (message ++ codes "\r\n")))))
line false level label message = label ++ (codes " " ++ (message ++ codes "\r\n"))

-- A piece of a message: as it stands, or highlighted.
pub data Piece : Type 0 where
  literal marked : Text → Piece

-- A call of one of the three functions with its message.
pub record Printed : Type 0 where
  pub level : Level
  pub label : Text
  pub message : List Piece

module _ (E : Stderr) where
  -- `USE_COLOR`, a `OnceLock`, and standard error.
  pub record Terminal : Type 0 where
    pub color : Option Bool
    pub stderr : E.State

  -- `get_or_init`: what was decided once stays.
  unfoldable pub use_color : Terminal → Bool × Terminal
  use_color t = elim t.color [
    | some c ↦ (c, t)
    | none ↦ let c = E.is_terminal t.stderr in (c, record t { color = some c })
  ]

  unfoldable pub highlight : Text → Terminal → Text × Terminal
  unfolding highlighted use_color
  highlight value t = let (c, u) = use_color t in (highlighted c value, u)

  -- `print_info`, `print_warn` and `print_error`, by their level.
  unfoldable pub print : Level → Text → Text → Terminal → Terminal
  unfolding line use_color
  print level label message t =
      let (c, u) = use_color t in
      record u { stderr = E.flush (E.write (line c level label message) u.stderr) }

  -- The arguments of `format_args!` are evaluated in order, before the line is printed.
  unfoldable pub render : List Piece → Terminal → Text × Terminal
  unfolding highlight
  render [] t = ([], t)
  render (literal text ∷ ps) t = let (rest, u) = render ps t in (text ++ rest, u)
  render (marked text ∷ ps) t =
      let (shown, u) = highlight text t in let (rest, v) = render ps u in (shown ++ rest, v)

  unfoldable pub print_pieces : Printed → Terminal → Terminal
  unfolding render print
  print_pieces p t = let (text, u) = render p.message t in print p.level p.label text u

  unfoldable pub print_all : List Printed → Terminal → Terminal
  unfolding print_pieces
  print_all [] t = t
  print_all (p ∷ ps) t = print_all ps (print_pieces p t)
