-- ===== src/Server/Attributes/Laws.antt =====
-- crates/netfilum-server/src/server.rs: queries of attributes and times.
use netfilum.Prelude.{◌≡◌, arith}
use netfilum.Paths.{PathBuf}
use netfilum.Server.Fs.{Fs}
use netfilum.Server.Attributes.{attr_for_path}

module _ (F : Fs) where
  pub attr_for_path-keeps : (p : PathBuf) (s : F.State) → (attr_for_path F p s).1 ≡ s
  unfolding attr_for_path
  attr_for_path-keeps p s = ground arith
