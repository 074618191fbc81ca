-- ===== src/Server/Root/Laws.antt =====
-- The root that `expand_root` of crates/netfilum-server/src/server.rs makes of an argument.
use netfilum.Prelude.{◌≡◌, refl, arith, false, Option, some, [], ◌∷◌, ◌++◌, ◌==◌, All}
use netfilum.Prelude.Texts.{Text, codes}
use netfilum.Server.Root.{contains, replace_skipping, expand_root}

-- A text without a dollar sign.
abbrev pub HasNoDollar : Text → Type 0
HasNoDollar = All (λ c. (b'$' == c) ≡ false)

contains-HasNoDollar :
    (t u : Text) → HasNoDollar t → contains (codes "$USER") (t ++ u) ≡ contains (codes "$USER") u
contains-HasNoDollar [] u h = refl
contains-HasNoDollar (c ∷ t) u (h, k) = ground (arith, contains-HasNoDollar t u k)

-- With an absolute home directory without a dollar sign, the default root is the same directory as
-- `netfilum-root` below the home directory.
pub expand_root-default :
    (home : Text) (profile : Option Text)
    → HasNoDollar home
    → expand_root (some (b'/' ∷ home)) profile ((b'/' ∷ home) ++ codes "/netfilum-root")
      ≡ expand_root (some (b'/' ∷ home)) profile (codes "/home/$USER/netfilum-root")
unfolding expand_root replace_skipping
expand_root-default home profile h = rw (contains-HasNoDollar home (codes "/netfilum-root") h) refl
