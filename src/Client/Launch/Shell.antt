-- ===== src/Client/Launch/Shell.antt =====
-- How a POSIX shell cuts a command line into words, as far as quotes, spaces and the variable `HOME`
-- between double quotes go (XCU 2.2, 2.6.2). A character that is special where it stands, other than
-- these, has no reading here.
use mathlib.Core.Option
use netfilum.Prelude.{
  ℕ, Bool, false, ◌||◌, Option, none, some, List, [], ◌∷◌, ◌++◌, ◌==◌, if◌then◌else◌, leb, ◌&&◌,
}
use netfilum.Prelude.Texts.{Text, codes, text_eq}

-- Between words, in a word, in a word between single or double quotes, and in the name of a variable
-- between double quotes, of which this much has been read.
pub data Mode : Type 0 where
  between unquoted single double : Mode
  variable : Text → Mode

pub data Class : Type 0 where
  space single_quote double_quote expansion operator plain : Class

abbrev member : ℕ → Text → Bool
member c [] = false
member c (d ∷ t) = c == d || member c t

-- Expansions are special in double quotes too, operators only outside of quotes.
unfoldable pub class_of : ℕ → Class
class_of c =
    if c == b' '
    then space
    else if c == b'\''
    then single_quote
    else if c == b'"'
    then double_quote
    else if member c (codes "$`\\")
    then expansion
    else if member c (codes "|&;<>()*?[#~=%!{}\t\n")
    then operator
    else plain

-- The characters of a variable's name.
abbrev in_name : ℕ → Bool
in_name c =
    leb b'a' c && leb c b'z' || leb b'A' c && leb c b'Z' || leb b'0' c && leb c b'9' || c == b'_'

-- The value of a variable; only `HOME` has one.
abbrev value_of : Text → Text → Option Text
value_of home name = if text_eq name (codes "HOME") then some home else none

-- The words of a command line, from the value of `HOME`, a mode and the word read so far.
unfoldable pub words : Text → Mode → Text → Text → Option (List Text)
unfolding class_of
words home between word [] = some []
words home unquoted word [] = some (word ∷ [])
words home single word [] = none
words home double word [] = none
words home (variable name) word [] = none
words home between word (c ∷ t) = elim (class_of c) [
  | space ↦ words home between [] t
  | single_quote ↦ words home single [] t
  | double_quote ↦ words home double [] t
  | expansion ↦ none
  | operator ↦ none
  | plain ↦ words home unquoted (c ∷ []) t
]
words home unquoted word (c ∷ t) = elim (class_of c) [
  | space ↦ Option.map (λ ws. word ∷ ws) (words home between [] t)
  | single_quote ↦ words home single word t
  | double_quote ↦ words home double word t
  | expansion ↦ none
  | operator ↦ none
  | plain ↦ words home unquoted (word ++ c ∷ []) t
]
words home single word (c ∷ t) =
    let stay = words home single (word ++ c ∷ []) t in
    let leave = words home unquoted word t in if c == b'\'' then leave else stay
words home double word (c ∷ t) = elim (class_of c) [
  | double_quote ↦ words home unquoted word t
  | expansion ↦ if c == b'$' then words home (variable []) word t else none
  | _ ↦ words home double (word ++ c ∷ []) t
]
words home (variable name) word (c ∷ t) =
    let longer = words home (variable (name ++ c ∷ [])) word t in
    let ended : Option (List Text) = elim (value_of home name) [
      | none ↦ none
      | some v ↦ elim (class_of c) [
        | double_quote ↦ words home unquoted (word ++ v) t
        | expansion ↦ none
        | _ ↦ words home double (word ++ v ++ c ∷ []) t
      ]
    ] in
    if in_name c then longer else ended
