-- ===== src/Client/Operations/Constrained.antt =====
-- Writes with `constrained_io` of crates/netfilum-client/src/mount.rs: the file must not grow.
use netfilum.Prelude.{
  ℕ, ◌+◌, ◌-◌, ◌≤◌, ◌<◌, ◌≡◌, subst, Bool, arith, Option-cases, true, false, inl, inr, Option, none,
  some, take, length, length-take, take-length, min,
}
use netfilum.Prelude.Texts.{Bytes}
use netfilum.Prelude.Results.{ok}
use netfilum.Protocol.{FileAttr}
use netfilum.Client.Context.{Environment, fetch_attr}
use netfilum.Client.Operations.{constrain, Opened, on_path, write, write_payload}

-- A prefix of the payload that ends before the end of the file, as long as there is room; or nothing,
-- where there is no room.
abbrev pub Fits : ℕ → ℕ → Bytes → Option Bytes → Type 0
Fits size offset payload none = size ≤ offset
Fits size offset payload (some p) =
    (p ≡ take (min (length payload) (size - offset)) payload)
    × (offset < size)
    × (offset + length p ≤ size)

constrain-Fits :
    (size offset : ℕ) (payload : Bytes) → Fits size offset payload (constrain size offset payload)
unfolding constrain
constrain-Fits size offset payload =
    ground (arith, length-take (size - offset) payload, take-length payload)

module _ (E : Environment) where
  -- The file after the question for its attributes.
  abbrev pub asked : Opened E → Opened E
  asked o = (on_path E (fetch_attr E) o).1

  -- What a constrained write amounts to, given the size that the server reports.
  abbrev pub IsConstrained : ℕ → Bytes → ℕ → Bool → Opened E → Type 0
  IsConstrained size buffer offset eof o =
      (p : Option Bytes) × Fits size offset buffer p
      × (write E buffer offset eof true o ≡ elim p [
        | none ↦ (ok (0, none), asked o)
        | some q ↦ write E q offset eof false (asked o)
      ])

  -- A write that must not pass the end of the file, where the server reports the file's size: it is
  -- the plain write of the part of the buffer that ends before the end, and where the offset is not
  -- before the end it returns 0 and sends no data.
  pub write-IsConstrained :
      (buffer : Bytes) (offset : ℕ) (eof : Bool) (o : Opened E) (attr : FileAttr)
      → (on_path E (fetch_attr E) o).0 ≡ ok attr
      → IsConstrained attr.size buffer offset eof o
  unfolding write write_payload
  write-IsConstrained buffer offset eof o attr h =
      elim (Option-cases (constrain attr.size offset buffer)) [
        | inl e ↦ (none, ground (arith, constrain-Fits attr.size offset buffer), ground arith)
        | inr (q, e) ↦ (
          some q,
          subst (Fits attr.size offset buffer) e (constrain-Fits attr.size offset buffer),
          ground arith,
        )
      ]
