-- ===== src/Server/Root.antt =====
-- crates/netfilum-server/src/server.rs: `expand_root` and `run`.
pub mod Laws
use netfilum.Prelude.{
  ℕ, zero, suc, ◌-◌, Bool, true, false, ◌&&◌, ◌||◌, Option, none, some, List, [], ◌∷◌, ◌++◌, length,
  drop, ◌==◌, if◌then◌else◌,
}
use netfilum.Prelude.Texts.{Text, codes, text_eq}
use netfilum.Prelude.Results.{Result, ok, err}
use netfilum.Protocol.{Request, Response, RpcResult}
use netfilum.Protocol.Errors.{IoError}
use netfilum.Paths.{PathBuf, components, join}
use netfilum.Rpc.{Codec, Crypto, Wire, from_password}
use netfilum.Server.Fs.{Fs}
use netfilum.Server.Dispatch.{new_server}
use netfilum.Server.Serve.{Accepted, Serving, stopped, Outcome, serve}

abbrev pub starts_with : Text → Text → Bool
starts_with [] t = true
starts_with (c ∷ p) [] = false
starts_with (c ∷ p) (d ∷ t) = c == d && starts_with p t

abbrev pub contains : Text → Text → Bool
contains p [] = starts_with p []
contains p (c ∷ t) = starts_with p (c ∷ t) || contains p t

-- `str::replace`, with the rest of an occurrence that is still to be skipped.
unfoldable pub replace_skipping : ℕ → Text → Text → Text → Text
replace_skipping skip pattern by [] = []
replace_skipping (suc skip) pattern by (c ∷ t) = replace_skipping skip pattern by t
replace_skipping zero pattern by (c ∷ t) =
    let replaced = by ++ replace_skipping (length pattern - 1) pattern by t in
    let kept = c ∷ replace_skipping zero pattern by t in
    if starts_with pattern (c ∷ t) then replaced else kept

-- `HOME`, then `USERPROFILE`, then the working directory.
abbrev pub home_or_here : Option Text → Option Text → Text
home_or_here (some home) profile = home
home_or_here none (some profile) = profile
home_or_here none none = codes "."

-- The two options are the variables `HOME` and `USERPROFILE`.
unfoldable pub expand_root : Option Text → Option Text → Text → PathBuf
unfolding replace_skipping components join
expand_root home_var profile raw =
    let home = home_or_here home_var profile in
    if contains (codes "$USER") raw
    then components (replace_skipping zero (codes "/home/$USER") home raw)
    else if text_eq raw (codes "~")
    then components home
    else if starts_with (codes "~/") raw
    then join (components home) (components (drop 2 raw))
    else components raw

module _ (C : Crypto) (W : Wire) (F : Fs) where
  module _ (requests : Codec Request) (responses : Codec (RpcResult Response)) where
    -- `run` over the connections that arrive; the binding of the address is the parameter `bound`.
    unfoldable pub run :
        Option Text
        → Option Text
        → Text
        → Text
        → Text
        → Result IoError (Unit {0})
        → List (Accepted W.State)
        → F.State
        → Serving × List Outcome × F.State
    unfolding expand_root
    run home profile root volume_label password bound arrivals s =
        let (created, t) =
          new_server F (from_password C) (expand_root home profile root) volume_label password s in
        elim created [
          | err e ↦ (stopped e, [], t)
          | ok server ↦ elim bound [
            | err e ↦ (stopped e, [], t)
            | ok u ↦ serve C W F server requests responses arrivals t
          ]
        ]
