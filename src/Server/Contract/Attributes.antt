-- ===== src/Server/Contract/Attributes.antt =====
-- The write bits that `set_readonly` of crates/netfilum-server/src/server.rs sets, as `attr_for_path`
-- reads them.
use Prim.Native.Nat.{bit_and, bit_or}
use netfilum.Prelude.{ℕ, ◌+◌, ◌*◌, ◌/◌, ◌%◌, ◌^◌, ◌-◌, ◌≡◌, arith, Bool, true, false, ap}
use netfilum.Prelude.Bits.{
  bit_and_double, bit_and_double_one, bit_or_double, bit_or_double_one, bit_and-zero,
}
use netfilum.Server.Attributes.{is_readonly, readonly_mode}

eighths : (a : ℕ) → a / 2 / 2 / 2 / 2 / 2 / 2 / 2 / 2 ≡ a / 256
eighths a = omega arith

-- The three write bits, at places 1, 4 and 7.
write_bits : (a : ℕ) → bit_and a 0o222 ≡ a / 2 % 2 * 2 + a / 16 % 2 * 16 + a / 128 % 2 * 128
write_bits a = omega (
  arith,
  bit_and_double a 73,
  bit_and_double_one (a / 2) 36,
  bit_and_double (a / 2 / 2) 18,
  bit_and_double (a / 2 / 2 / 2) 9,
  bit_and_double_one (a / 2 / 2 / 2 / 2) 4,
  bit_and_double (a / 2 / 2 / 2 / 2 / 2) 2,
  bit_and_double (a / 2 / 2 / 2 / 2 / 2 / 2) 1,
  bit_and_double_one (a / 2 / 2 / 2 / 2 / 2 / 2 / 2) 0,
  bit_and-zero (a / 2 / 2 / 2 / 2 / 2 / 2 / 2 / 2),
)

-- `!0o222` on 32 bits, over its lowest eight digits.
abbrev keep : ℕ
keep = 2 ^ 32 - 1 - 0o222

without_write_bits :
    (a : ℕ)
    → bit_and a keep
      ≡ bit_and (a / 256) (keep / 256) * 256
        + (a % 2 + a / 4 % 2 * 4 + a / 8 % 2 * 8 + a / 32 % 2 * 32 + a / 64 % 2 * 64)
without_write_bits a = omega (
  arith,
  bit_and_double_one a (keep / 2),
  bit_and_double (a / 2) (keep / 4),
  bit_and_double_one (a / 2 / 2) (keep / 8),
  bit_and_double_one (a / 2 / 2 / 2) (keep / 16),
  bit_and_double (a / 2 / 2 / 2 / 2) (keep / 32),
  bit_and_double_one (a / 2 / 2 / 2 / 2 / 2) (keep / 64),
  bit_and_double_one (a / 2 / 2 / 2 / 2 / 2 / 2) (keep / 128),
  bit_and_double (a / 2 / 2 / 2 / 2 / 2 / 2 / 2) (keep / 256),
  ap (λ x. bit_and x (keep / 256)) (eighths a),
)

with_owner_bit : (a : ℕ) → bit_or a 0o200 ≡ bit_or (a / 256) 0 * 256 + 128 + a % 128
with_owner_bit a = omega (
  arith,
  bit_or_double a 64,
  bit_or_double (a / 2) 32,
  bit_or_double (a / 2 / 2) 16,
  bit_or_double (a / 2 / 2 / 2) 8,
  bit_or_double (a / 2 / 2 / 2 / 2) 4,
  bit_or_double (a / 2 / 2 / 2 / 2 / 2) 2,
  bit_or_double (a / 2 / 2 / 2 / 2 / 2 / 2) 1,
  bit_or_double_one (a / 2 / 2 / 2 / 2 / 2 / 2 / 2) 0,
  ap (λ x. bit_or x 0) (eighths a),
)

-- A mode that `set_readonly` sets is read back as what was asked for.
pub is_readonly-readonly_mode : (mode : ℕ) (b : Bool) → is_readonly (readonly_mode mode b) ≡ b
unfolding is_readonly readonly_mode
is_readonly-readonly_mode mode true =
    ground (arith, write_bits (bit_and mode keep), without_write_bits mode)
is_readonly-readonly_mode mode false =
    ground (arith, write_bits (bit_or mode 0o200), with_owner_bit mode)
