-- ===== src/Cli/Colors.antt =====
-- The colors of src/cli.rs: they are decided once, and a line without them reads the same.
use netfilum.Prelude.{
  ◌≡◌, refl, ap, sym, ◌∙◌, arith, Bool, true, false, none, some, List, [], ◌∷◌, ◌++◌, append_assoc,
  ◌==◌, if◌then◌else◌, Option-cases, inl, inr,
}
use netfilum.Prelude.Texts.{Text, codes}
use netfilum.Cli.{
  Stderr, Terminal, use_color, highlight, highlighted, Level, color_of, line, print, Piece, literal,
  marked, render, Printed, print_pieces, print_all, reset, info, warning, error,
}

-- What a terminal shows of a text: an escape sequence goes from its first byte to the letter `m`.
unfoldable pub shown : Bool → Text → Text
shown hidden [] = []
shown true (c ∷ t) =
    let stay = shown true t in let leave = shown false t in if c == b'm' then leave else stay
shown false (c ∷ t) =
    let skipped = shown true t in let kept = c ∷ shown false t in if c == 27 then skipped else kept

abbrev pub IsPlain : Text → Type 0
IsPlain [] = Unit
IsPlain (c ∷ t) = ((c == 27) ≡ false) × IsPlain t

shown-append : (s t : Text) → IsPlain s → shown false (s ++ t) ≡ s ++ shown false t
unfolding shown
shown-append [] t h = refl
shown-append (c ∷ s) t (h, k) = ground (arith, shown-append s t k)

-- A message in one go, with colors or without.
unfoldable pub message_text : Bool → List Piece → Text
message_text c [] = []
message_text c (literal text ∷ ps) = text ++ message_text c ps
message_text c (marked text ∷ ps) = highlighted c text ++ message_text c ps

abbrev pub ArePlain : List Piece → Type 0
ArePlain [] = Unit
ArePlain (literal text ∷ ps) = IsPlain text × ArePlain ps
ArePlain (marked text ∷ ps) = IsPlain text × ArePlain ps

module _ (E : Stderr) where
  -- The terminal once its colors are decided.
  abbrev pub decided : Terminal E → Terminal E
  decided t = (use_color E t).1

  abbrev pub colored : Terminal E → Bool
  colored t = (use_color E t).0

  -- A line and a flush for each message.
  abbrev pub write_lines : Bool → List Printed → E.State → E.State
  write_lines c [] s = s
  write_lines c (p ∷ ps) s =
      write_lines c ps (E.flush (E.write (line c p.level p.label (message_text c p.message)) s))

  render-eq :
      (c : Bool) (ps : List Piece) (t : Terminal E)
      → t.color ≡ some c
      → render E ps t ≡ (message_text c ps, t)
  unfolding render highlight use_color message_text
  render-eq c [] t h = refl
  render-eq c (literal text ∷ ps) t h = ground (arith, render-eq c ps t h)
  render-eq c (marked text ∷ ps) t h = ground (arith, render-eq c ps t h)

  print_all-eq :
      (c : Bool) (ps : List Printed) (t : Terminal E)
      → t.color ≡ some c
      → print_all E ps t ≡ record t { stderr = write_lines c ps t.stderr }
  unfolding print_all print_pieces print use_color
  print_all-eq c [] t h = refl
  print_all-eq c (p ∷ ps) t h =
      ground (arith, render-eq c p.message t h, print_all-eq c ps (print_pieces E p t))

  use_color-decided : (t : Terminal E) → (t.color ≡ none) → (decided t).color ≡ some (colored t)
  unfolding use_color
  use_color-decided t h = ground arith

  render-decided :
      (ps : List Piece) (t : Terminal E)
      → (render E ps t).0 ≡ message_text (colored t) ps
        × (use_color E (render E ps t).1 ≡ (colored t, decided t))
  unfolding render highlight use_color message_text
  render-decided [] t = ground arith
  render-decided (literal text ∷ ps) t = ground (arith, render-decided ps t)
  render-decided (marked text ∷ ps) t = elim (Option-cases t.color) [
    | inl e ↦ ground (arith, render-eq (colored t) ps (decided t))
    | inr (c, e) ↦ ground (arith, render-eq (colored t) ps (decided t))
  ]

  -- Whether the lines have colors is decided when the first one is printed, by what standard error is
  -- then, unless it was decided before; all lines follow it, their highlighted values too, and each
  -- line is written whole and flushed before the next one.
  pub print_all-decided :
      (p : Printed) (ps : List Printed) (t : Terminal E)
      → print_all E (p ∷ ps) t
        ≡ record { color = some (colored t); stderr = write_lines (colored t) (p ∷ ps) t.stderr }
  unfolding print_all print_pieces print use_color
  print_all-decided p ps t = elim (Option-cases t.color) [
    | inl e ↦
        ground (arith, render-decided p.message t, print_all-eq (colored t) ps (print_pieces E p t))
    | inr (c, e) ↦
        ground (arith, render-decided p.message t, print_all-eq (colored t) ps (print_pieces E p t))
  ]

shown-color : (level : Level) (t : Text) → shown false (color_of level ++ t) ≡ shown false t
unfolding shown
shown-color info t = refl
shown-color warning t = refl
shown-color error t = refl

shown-highlighted :
    (text t : Text)
    → IsPlain text
    → shown false (highlighted true text ++ t) ≡ text ++ shown false t
unfolding highlighted
shown-highlighted text t h =
    unfold shown in ap (shown false) (append_assoc text reset t) ∙ shown-append text (reset ++ t) h

shown-message_text :
    (ps : List Piece) (t : Text)
    → ArePlain ps
    → shown false (message_text true ps ++ t) ≡ message_text false ps ++ shown false t
unfolding message_text highlighted
shown-message_text [] t h = refl
shown-message_text (literal text ∷ ps) t (h, k) =
    ap (shown false) (append_assoc text (message_text true ps) t)
    ∙ shown-append text (message_text true ps ++ t) h
    ∙ ap (λ r. text ++ r) (shown-message_text ps t k)
    ∙ sym (append_assoc text (message_text false ps) (shown false t))
shown-message_text (marked text ∷ ps) t (h, k) =
    ap (shown false) (append_assoc (highlighted true text) (message_text true ps) t)
    ∙ shown-highlighted text (message_text true ps ++ t) h
    ∙ ap (λ r. text ++ r) (shown-message_text ps t k)
    ∙ sym (append_assoc text (message_text false ps) (shown false t))

-- On a terminal that interprets escape sequences, a line with colors, its highlighted values included,
-- shows exactly the text of the line without them, where no text in it has an escape byte.
pub shown-line :
    (level : Level) (label : Text) (ps : List Piece)
    → IsPlain label
    → ArePlain ps
    → shown false (line true level label (message_text true ps))
      ≡ line false level label (message_text false ps)
unfolding line
shown-line level label ps h k =
    unfold shown in
    shown-color level _
    ∙ shown-append label _ h
    ∙ ap (λ r. label ++ b' ' ∷ r) (shown-message_text ps (codes "\r\n") k)
