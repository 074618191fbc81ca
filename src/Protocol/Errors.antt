-- ===== src/Protocol/Errors.antt =====
-- src/protocol.rs: `RpcError::to_io_error` and `From<io::Error> for RpcError`.
use netfilum.Prelude.{◌≡◌, refl, arith}
use netfilum.Prelude.Texts.{Text}
use netfilum.Prelude.Results.{Result}
use netfilum.Protocol.{ErrorCode, RpcError}

-- The kinds of `std::io::Error` that the program names; every other kind is `uncategorized`.
pub data ErrorKind : Type 0 where
  not_found already_exists permission_denied invalid_input not_a_directory : ErrorKind
  is_a_directory directory_not_empty unsupported other invalid_data : ErrorKind
  connection_aborted connection_refused connection_reset broken_pipe not_connected : ErrorKind
  unexpected_eof uncategorized : ErrorKind

-- The kind of an `io::Error`, and the text that `to_string` gives.
pub record IoError : Type 0 where
  pub kind : ErrorKind
  pub message : Text

abbrev pub IoResult : Type 0 → Type 0
IoResult A = Result IoError A

-- The match of `to_io_error`.
abbrev pub kind_of_code : ErrorCode → ErrorKind
kind_of_code ErrorCode.not_found = ErrorKind.not_found
kind_of_code ErrorCode.already_exists = ErrorKind.already_exists
kind_of_code ErrorCode.permission_denied = ErrorKind.permission_denied
kind_of_code ErrorCode.invalid_input = ErrorKind.invalid_input
kind_of_code ErrorCode.not_directory = ErrorKind.not_a_directory
kind_of_code ErrorCode.is_directory = ErrorKind.is_a_directory
kind_of_code ErrorCode.directory_not_empty = ErrorKind.directory_not_empty
kind_of_code ErrorCode.unsupported = ErrorKind.unsupported
kind_of_code ErrorCode.unexpected = ErrorKind.other

unfoldable pub to_io_error : RpcError → IoError
to_io_error e = record { kind = kind_of_code e.code; message = e.message }

-- The match of `From<io::Error>`.
abbrev pub code_of_kind : ErrorKind → ErrorCode
code_of_kind ErrorKind.not_found = ErrorCode.not_found
code_of_kind ErrorKind.already_exists = ErrorCode.already_exists
code_of_kind ErrorKind.permission_denied = ErrorCode.permission_denied
code_of_kind ErrorKind.invalid_input = ErrorCode.invalid_input
code_of_kind ErrorKind.not_a_directory = ErrorCode.not_directory
code_of_kind ErrorKind.is_a_directory = ErrorCode.is_directory
code_of_kind ErrorKind.directory_not_empty = ErrorCode.directory_not_empty
code_of_kind ErrorKind.unsupported = ErrorCode.unsupported
code_of_kind _ = ErrorCode.unexpected

unfoldable pub rpc_error_from : IoError → RpcError
rpc_error_from e = record { code = code_of_kind e.kind; message = e.message }

code_of_kind-kind_of_code : (c : ErrorCode) → code_of_kind (kind_of_code c) ≡ c
code_of_kind-kind_of_code ErrorCode.not_found = refl
code_of_kind-kind_of_code _ = refl

-- An error that the server reports keeps its code and its message when the client turns it into an
-- `io::Error` and it is converted back.
pub rpc_error_from-to_io_error : (e : RpcError) → rpc_error_from (to_io_error e) ≡ e
unfolding rpc_error_from to_io_error
rpc_error_from-to_io_error e = ground (arith, code_of_kind-kind_of_code e.code)
