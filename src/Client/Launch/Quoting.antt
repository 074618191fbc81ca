-- ===== src/Client/Launch/Quoting.antt =====
-- `shell_quote` of crates/netfilum-client/src/mount.rs against the shell's reading of quotes.
use netfilum.Prelude.{
  ℕ, ◌≡◌, refl, ap, sym, ◌∙◌, arith, Bool, true, false, ◌&&◌, some, List, [], ◌∷◌, ◌++◌,
  append_assoc, append-nil,
}
use netfilum.Prelude.{◌==◌, if◌then◌else◌, Bool-cases, inl, inr, ==_iff}
use netfilum.Prelude.Texts.{Text, codes, text_eq}
use netfilum.Client.Launch.{
  UpArgs, escape_quotes, shell_quote, daemon_command, default_wsl_root, root_word,
}
use netfilum.Client.Launch.Shell.{plain, class_of, between, unquoted, single, double, words}

words-escape_quotes :
    (home word v rest : Text)
    → words home single word (escape_quotes v ++ b'\'' ∷ rest)
      ≡ words home unquoted (word ++ v) rest
unfolding escape_quotes words
words-escape_quotes home word [] rest = ap (λ w. words home unquoted w rest) (sym (append-nil word))
words-escape_quotes home word (c ∷ v) rest = elim (Bool-cases (c == b'\'')) [
  | inl e ↦ rw ((==_iff c b'\'').0 e) (
      words-escape_quotes home (word ++ b'\'' ∷ []) v rest
      ∙ ap (λ w. words home unquoted w rest) (append_assoc word (b'\'' ∷ []) v))
  | inr e ↦
      ground (arith, words-escape_quotes home (word ++ c ∷ []) v rest, append_assoc word (c ∷ []) v)
]

-- A quoted value at the start of a command line, or behind a space, is one word with exactly the bytes
-- of the value, whatever they are: nothing in it ends the word, is expanded or is an operator. It
-- ends where the quoting does, and what follows is read as if the value stood there unquoted.
pub words-shell_quote :
    (home v rest : Text)
    → words home between [] (shell_quote v ++ rest) ≡ words home unquoted v rest
unfolding shell_quote words
words-shell_quote home v rest =
    ap (λ t. words home single [] t) (append_assoc (escape_quotes v) (b'\'' ∷ []) rest)
    ∙ words-escape_quotes home [] v rest

-- The root that the daemon is given.
abbrev pub root_below : Text → Text → Text
root_below home root =
    if text_eq root default_wsl_root then home ++ codes "/netfilum-root" else root

abbrev pub daemon_words : Text → UpArgs → Text → List Text
daemon_words home args daemon =
    daemon
    ∷ codes "--root"
    ∷ root_below home args.root
    ∷ codes "--addr"
    ∷ args.addr
    ∷ codes "--volume-label"
    ∷ args.volume_label
    ∷ codes "--password"
    ∷ args.password
    ∷ []

-- Characters that stand for themselves.
abbrev all_plain : Text → Bool
all_plain [] = true
all_plain (c ∷ t) = (elim (class_of c) [ plain ↦ true | _ ↦ false ]) && all_plain t

words-plain :
    (home word name rest : Text)
    → all_plain name ≡ true
    → words home unquoted word (name ++ rest) ≡ words home unquoted (word ++ name) rest
unfolding words
words-plain home word [] rest h = ap (λ w. words home unquoted w rest) (sym (append-nil word))
words-plain home word (c ∷ name) rest h =
    ground (arith, words-plain home (word ++ c ∷ []) name rest, append_assoc word (c ∷ []) name)

-- Between double quotes too, up to the closing one.
words-double :
    (home word name rest : Text)
    → all_plain name ≡ true
    → words home double word (name ++ b'"' ∷ rest) ≡ words home unquoted (word ++ name) rest
unfolding words
words-double home word [] rest h = ap (λ w. words home unquoted w rest) (sym (append-nil word))
words-double home word (c ∷ name) rest h =
    ground (arith, words-double home (word ++ c ∷ []) name rest, append_assoc word (c ∷ []) name)

-- The default root is read as a directory below `HOME`.
words-default :
    (home rest : Text)
    → words home between [] (codes "\"$HOME/netfilum-root\"" ++ rest)
      ≡ words home unquoted (home ++ codes "/netfilum-root") rest
unfolding words class_of
words-default home rest =
    words-double home (home ++ b'/' ∷ []) (codes "netfilum-root") rest refl
    ∙ ap (λ w. words home unquoted w rest) (append_assoc home (b'/' ∷ []) (codes "netfilum-root"))

words-root_word :
    (home root rest : Text)
    → words home between [] (root_word root ++ rest)
      ≡ words home unquoted (root_below home root) rest
words-root_word home root rest = elim (Bool-cases (text_eq root default_wsl_root)) [
  | inl e ↦ rw e (words-default home rest)
  | inr e ↦ rw e (words-shell_quote home root rest)
]

-- An option of plain characters behind a word, and behind the option a value as it is written.
words-option :
    (home word : Text) (c : ℕ) (name v written rest : Text) (ws : List Text)
    → all_plain (c ∷ name) ≡ true
    → words home between [] (written ++ rest) ≡ words home unquoted v rest
    → words home unquoted v rest ≡ some ws
    → words home unquoted word (b' ' ∷ ((c ∷ name) ++ b' ' ∷ (written ++ rest)))
      ≡ some (word ∷ (c ∷ name) ∷ ws)
unfolding words
words-option home word c name v written rest ws h read k =
    ground (arith, words-plain home (c ∷ []) name (b' ' ∷ (written ++ rest)))

-- Whatever the arguments hold, the shell reads the command line of the daemon as the daemon's path and
-- its options with exactly these values; only for the default root, `/home/$USER/netfilum-root`, it
-- gives the directory `netfilum-root` below `HOME`.
pub words-daemon_command :
    (home : Text) (args : UpArgs) (daemon : Text)
    → words home between [] (daemon_command args daemon) ≡ some (daemon_words home args daemon)
unfolding daemon_command class_of
words-daemon_command home args daemon =
    let quoted = λ (v rest : Text). words-shell_quote home v rest in
    let password : words home unquoted args.password [] ≡ some (args.password ∷ []) =
      unfold words in refl in
    let label =
      words-option home args.volume_label b'-' (codes "-password") args.password _ [] _ refl
        (quoted args.password []) password in
    let addr =
      words-option home args.addr b'-' (codes "-volume-label") args.volume_label _ _ _ refl
        (quoted args.volume_label _) label in
    let root =
      words-option home (root_below home args.root) b'-' (codes "-addr") args.addr _ _ _ refl
        (quoted args.addr _) addr in
    let whole =
      words-option home daemon b'-' (codes "-root") (root_below home args.root) _ _ _ refl
        (words-root_word home args.root _) root in
    rw (← append-nil (shell_quote args.password)) (words-shell_quote home daemon _ ∙ whole)
