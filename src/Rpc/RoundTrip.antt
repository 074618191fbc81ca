-- ===== src/Rpc/RoundTrip.antt =====
-- `write_message` and `read_message` of src/rpc.rs, over a stream in memory.
use netfilum.Prelude.{ℕ, zero, suc, ◌<◌, ◌^◌, ◌≡◌, refl, arith, ◌++◌, length, take, drop}
use netfilum.Prelude.{append_assoc, length-take, Bool-cases, inl, inr, ltb}
use netfilum.Prelude.Texts.{Bytes, Text}
use netfilum.Prelude.Results.{Result, ok, err, and_then, map_err, Result-cases}
use netfilum.Protocol.Errors.{IoError, ErrorKind}
use netfilum.Rpc.{Codec, Crypto, nonce_len, to_le_bytes, decrypt, seal, codec_err, too_short}
use netfilum.Rpc.{write_message, read_message}
use netfilum.Rpc.Buffer.{Buffer, buffer, eof_error, read_exact, read_exact-append, read_exact-short}
use netfilum.Rpc.Frames.{IsCodec, IsCrypto, frame, seal-eq_ok, from_le_bytes-to_le_bytes}

module _ (C : Crypto) {T : Type 0} (codec : Codec T) where
  -- What a write does to the stream, by the outcome of sealing.
  abbrev pub written : Result IoError Bytes → Buffer → Result IoError (Unit {0}) × Buffer
  written (ok b) st = (ok tt, record st { output = st.output ++ frame b })
  written (err e) st = (err e, st)

  -- `write_message` writes the whole frame of the sealed message, or, where encoding or encryption
  -- fails or the frame does not fit a `u32` length, writes nothing and returns that error.
  pub write_message-frame :
      (key nonce : Bytes) (v : T) (st : Buffer)
      → write_message C buffer codec key nonce v st ≡ written (seal C codec key nonce v) st
  unfolding write_message frame
  write_message-frame key nonce v st = elim (Result-cases (seal C codec key nonce v)) [
    | inl (b, e) ↦ ground (arith, append_assoc st.output (to_le_bytes (length b)) b)
    | inr (x, e) ↦ ground arith
  ]

  -- What `read_message` makes of a payload.
  abbrev opened : Bytes → Bytes → Result IoError T
  opened key payload =
      and_then (decrypt C key payload) (λ bytes. map_err codec_err (codec.from_bytes bytes))

  read_message-payload :
      (key b rest out : Bytes)
      → length b < 2 ^ 32
      → read_message C buffer codec key (record { input = frame b ++ rest; output = out })
        ≡ (opened key b, record { input = rest; output = out })
  unfolding read_message frame
  read_message-payload key b rest out h = ground (
    arith,
    append_assoc (to_le_bytes (length b)) b rest,
    read_exact-append (to_le_bytes (length b)) (b ++ rest) out,
    read_exact-append b rest out,
    from_le_bytes-to_le_bytes (length b) h,
  )

  -- A message that was sealed under a key and a nonce of 12 bytes is read back under that key, and
  -- what follows its frame stays in the stream.
  pub read_message-seal :
      IsCrypto C
      → IsCodec codec
      → (key nonce : Bytes) (v : T) (b rest out : Bytes) → length nonce ≡ nonce_len
      → seal C codec key nonce v ≡ ok b
      → read_message C buffer codec key (record { input = frame b ++ rest; output = out })
        ≡ (ok v, record { input = rest; output = out })
  read_message-seal L D key nonce v b rest out n h =
      let (fits, plain, opens, decodes) = seal-eq_ok C L codec D key nonce v b n h in
      ground (arith, read_message-payload key b rest out fits)

  -- Under a key whose cipher does not authenticate the payload, reading fails with `InvalidData`, and
  -- the frame is gone from the stream.
  pub read_message-wrong_key :
      (key b rest out : Bytes) (c : C.Cipher) (x : Text)
      → length b < 2 ^ 32
      → C.new_from_slice key ≡ ok c
      → C.decrypt c (take nonce_len b) (drop nonce_len b) ≡ err x
      → ((e : IoError) × (e.kind ≡ ErrorKind.invalid_data)
          × (read_message C buffer codec key (record { input = frame b ++ rest; output = out })
              ≡ (err e, record { input = rest; output = out })))
  unfolding decrypt
  read_message-wrong_key key b rest out c x h k d =
      let read = read_message-payload key b rest out h in
      elim (Bool-cases (ltb (length b) nonce_len)) [
        | inl e ↦ (too_short, refl, ground (arith, read))
        | inr e ↦ (codec_err x, unfold codec_err in refl, ground (arith, read))
      ]

  take-frame :
      (n : ℕ) (b : Bytes)
      → take (suc (suc (suc (suc n)))) (frame b) ≡ to_le_bytes (length b) ++ take n b
  unfolding frame
  take-frame n b = refl

  -- A stream that ends within a frame gives `UnexpectedEof`, wherever it ends.
  pub read_message-truncated :
      (key b out : Bytes) (n : ℕ)
      → length b < 2 ^ 32
      → n < length (frame b)
      → (read_message C buffer codec key (record { input = take n (frame b); output = out })).0
        ≡ err eof_error
  unfolding read_message
  read_message-truncated key b out zero h k = unfold read_exact in refl
  read_message-truncated key b out (suc zero) h k = unfold read_exact frame in refl
  read_message-truncated key b out (suc (suc zero)) h k = unfold read_exact frame in refl
  read_message-truncated key b out (suc (suc (suc zero))) h k = unfold read_exact frame in refl
  read_message-truncated key b out (suc (suc (suc (suc n)))) h k =
      let fewer : n < length b = unfold frame in omega arith in
      ground (
        arith,
        take-frame n b,
        read_exact-append (to_le_bytes (length b)) (take n b) out,
        from_le_bytes-to_le_bytes (length b) h,
        read_exact-short (length b) (record { input = take n b; output = out })
            (omega (arith, length-take n b)),
      )

  -- Reading writes nothing.
  pub read_message-output :
      (key : Bytes) (st : Buffer) → (read_message C buffer codec key st).1.output ≡ st.output
  unfolding read_message read_exact
  read_message-output key st = ground arith
