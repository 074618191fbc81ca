-- ===== src/Server/Dispatch/Typed.antt =====
-- Which response `RpcServer::dispatch` of crates/netfilum-server/src/server.rs gives to a request.
use netfilum.Prelude.{ℕ, ◌≡◌, arith}
use netfilum.Prelude.Results.{ok}
use netfilum.Prelude.Texts.{Bytes}
use netfilum.Protocol.{FileAttr, Request, Response}
use netfilum.Server.Fs.{Fs}
use netfilum.Server.Resolve.{RpcServer}
use netfilum.Server.Files as Files
use netfilum.Server.Dispatch.{dispatch}

pub data Shape : Type 0 where
  attr dir_entries payload write_result volume_info empty : Shape

-- The variant of a response.
abbrev pub shape_of : Response → Shape
shape_of (Response.attr a) = attr
shape_of (Response.dir_entries es) = dir_entries
shape_of (Response.payload b) = payload
shape_of (Response.write_result n a) = write_result
shape_of (Response.volume_info v) = volume_info
shape_of Response.empty = empty

-- The variant that answers a request.
abbrev pub answer_shape : Request → Shape
answer_shape (Request.stat path) = attr
answer_shape (Request.open_path path) = attr
answer_shape (Request.create path kind attributes size) = attr
answer_shape (Request.read_dir path) = dir_entries
answer_shape (Request.read path offset len) = payload
answer_shape (Request.write path offset d to_eof) = write_result
answer_shape (Request.set_len path size allocation) = attr
answer_shape (Request.set_basic_info path update) = attr
answer_shape Request.get_volume_info = volume_info
answer_shape _ = empty

-- The response of a shape.
pub shape_of-payload :
    (a : Response) → shape_of a ≡ payload → (b : Bytes) × (a ≡ Response.payload b)
shape_of-payload a h = ground arith

pub shape_of-write_result :
    (a : Response)
    → shape_of a ≡ write_result
    → (n : ℕ) × (i : FileAttr) × (a ≡ Response.write_result n i)
shape_of-write_result a h = ground arith

module _ (F : Fs) (server : RpcServer) where
  -- A request that succeeds is answered by the variant of its kind: attributes, a listing, bytes, the
  -- outcome of a write, the volume, or nothing.
  pub dispatch-answer_shape :
      (r : Request) (s : F.State) (a : Response)
      → (dispatch F server r s).0 ≡ ok a
      → shape_of a ≡ answer_shape r
  unfolding dispatch
  dispatch-answer_shape (Request.stat path) s a h = ground arith
  dispatch-answer_shape (Request.open_path path) s a h = ground arith
  dispatch-answer_shape (Request.create path kind attributes size) s a h = ground arith
  dispatch-answer_shape (Request.read_dir path) s a h = ground arith
  dispatch-answer_shape (Request.read path offset len) s a h = ground arith
  dispatch-answer_shape (Request.write path offset d to_eof) s a h =
      unfold Files.write_file in ground arith
  dispatch-answer_shape (Request.can_delete path kind) s a h = ground arith
  dispatch-answer_shape (Request.remove_file path) s a h = ground arith
  dispatch-answer_shape (Request.remove_dir path) s a h = ground arith
  dispatch-answer_shape (Request.rename path target replace) s a h = ground arith
  dispatch-answer_shape (Request.set_len path size allocation) s a h = ground arith
  dispatch-answer_shape (Request.flush path) s a h = ground arith
  dispatch-answer_shape (Request.set_basic_info path update) s a h = ground arith
  dispatch-answer_shape Request.get_volume_info s a h = ground arith
