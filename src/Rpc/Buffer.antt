-- ===== src/Rpc/Buffer.antt =====
-- A stream over two byte strings, as the tests of src/rpc.rs use a `Cursor` and a `Vec<u8>`: what is
-- read comes off the input, and what is written goes to the end of the output.
use netfilum.Prelude.{ℕ, ◌<◌, ◌≡◌, arith, [], ◌++◌, length, take, drop, ltb}
use netfilum.Prelude.{if◌then◌else◌, take-append_exact, drop-append_exact, length-append}
use netfilum.Prelude.Texts.{Bytes, codes}
use netfilum.Prelude.Results.{ok, err, Run}
use netfilum.Protocol.Errors.{ErrorKind, IoError}
use netfilum.Rpc.{Wire}

pub record Buffer : Type 0 where
  pub input : Bytes
  pub output : Bytes

abbrev pub eof_error : IoError
eof_error = record {
  kind = ErrorKind.unexpected_eof;
  message = codes "failed to fill whole buffer";
}

unfoldable pub read_exact : ℕ → Run Buffer IoError Bytes
read_exact n b =
    if ltb (length b.input) n
    then (err eof_error, record b { input = [] })
    else (ok (take n b.input), record b { input = drop n b.input })

-- Writes and settings succeed. A `read` gives what is there, up to `n` bytes.
abbrev pub buffer : Wire
buffer = record {
  State = Buffer;
  connect = λ b. (ok tt, b);
  set_nodelay = λ on b. (ok tt, b);
  set_read_timeout = λ t b. (ok tt, b);
  set_write_timeout = λ t b. (ok tt, b);
  write_all = λ bytes b. (ok tt, record b { output = b.output ++ bytes });
  flush = λ b. (ok tt, b);
  read_exact = read_exact;
  read = λ n b. (ok (take n b.input), record b { input = drop n b.input });
  shutdown = λ b. (ok tt, b);
}

pub read_exact-append :
    (xs rest out : Bytes)
    → read_exact (length xs) (record { input = xs ++ rest; output = out })
      ≡ (ok xs, record { input = rest; output = out })
unfolding read_exact
read_exact-append xs rest out =
    ground (arith, length-append xs rest, take-append_exact xs rest, drop-append_exact xs rest)

pub read_exact-short :
    (n : ℕ) (b : Buffer)
    → length b.input < n
    → read_exact n b ≡ (err eof_error, record b { input = [] })
unfolding read_exact
read_exact-short n b h = ground arith
