-- ===== src/Client/Operations/Replies.antt =====
-- All operations of crates/netfilum-client/src/mount.rs as runs over an open file with what they return.
use netfilum.Prelude.{ℕ, Option, List, [], ◌∷◌}
use netfilum.Prelude.Texts.{Text, Bytes}
use netfilum.Prelude.Results.{Result, ok, Run, pure, ◌>>=◌}
use netfilum.Protocol.{EntryKind, VolumeInfoData}
use netfilum.Client.Attributes.{FileInfo}
use netfilum.Client.Context.{Environment, RpcFsContext}
use netfilum.Client.Operations as Operations
use netfilum.Client.Operations.{Opened, FileSecurity, on_mount}
use netfilum.Client.Operations.Performed.{Operation}

-- What an operation returns; for a file that is opened its path and kind, and what fills its `FileInfo`.
pub data Reply : Type 0 where
  security : FileSecurity × Option Bytes → Reply
  opened : Text → EntryKind → FileInfo → Reply
  volume : VolumeInfoData → Reply
  info : FileInfo → Reply
  descriptor : ℕ × Option Bytes → Reply
  listing : Bytes → Reply
  fetched : Option (Bytes × ℕ) → Reply
  written : ℕ × Option FileInfo → Reply
  done : Reply

module _ (E : Environment) (fs : RpcFsContext E) where
  abbrev pub replying : Operation → Run (Opened E) E.FspError Reply
  replying (Operation.get_security_by_name name target reparse) =
      on_mount E (Operations.get_security_by_name E fs name target reparse) >>= λ s.
      pure (Reply.security s)
  replying (Operation.open_path name) =
      on_mount E (Operations.open_path E fs name) >>= λ c. pure (Reply.opened c.0.path c.0.kind c.1)
  replying (Operation.create name options attributes size) =
      on_mount E (Operations.create E fs name options attributes size) >>= λ c.
      pure (Reply.opened c.0.path c.0.kind c.1)
  replying Operation.get_volume_info =
      on_mount E (Operations.get_volume_info E fs) >>= λ v. pure (Reply.volume v)
  replying (Operation.cleanup flags) = λ o. (ok Reply.done, Operations.cleanup E flags o)
  replying Operation.flush_file = Operations.flush_file E >>= λ i. pure (Reply.info i)
  replying Operation.flush_volume = on_mount E (Operations.flush_volume E) >>= λ u. pure Reply.done
  replying Operation.get_file_info = Operations.get_file_info E >>= λ i. pure (Reply.info i)
  replying Operation.set_security = Operations.set_security E >>= λ u. pure Reply.done
  replying (Operation.get_security target) =
      Operations.get_security E fs target >>= λ d. pure (Reply.descriptor d)
  replying (Operation.read_directory marker) =
      Operations.read_directory E marker >>= λ b. pure (Reply.listing b)
  replying (Operation.rename name replace) =
      Operations.rename E name replace >>= λ u. pure Reply.done
  replying (Operation.set_basic_info attributes created accessed modified changed) =
      Operations.set_basic_info E attributes created accessed modified changed >>= λ i.
      pure (Reply.info i)
  replying (Operation.set_delete delete) = Operations.set_delete E delete >>= λ u. pure Reply.done
  replying (Operation.set_file_size size allocation) =
      Operations.set_file_size E size allocation >>= λ i. pure (Reply.info i)
  replying (Operation.read buffer offset) =
      Operations.read E buffer offset >>= λ r. pure (Reply.fetched r)
  replying (Operation.write buffer offset to_eof constrained) =
      Operations.write E buffer offset to_eof constrained >>= λ w. pure (Reply.written w)

  -- Operations on one open file, one after another, whether the ones before succeed or fail.
  unfoldable pub replying_all :
      List Operation → Opened E → List (Result E.FspError Reply) × Opened E
  replying_all [] o = ([], o)
  replying_all (op ∷ ops) o =
      let (r, o') = replying op o in let (rs, o'') = replying_all ops o' in (r ∷ rs, o'')
