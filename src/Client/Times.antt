-- ===== src/Client/Times.antt =====
-- crates/netfilum-client/src/mount.rs: `windows_time_from_wire` and `wire_time_from_windows`. A
-- Windows time counts 100 nanoseconds from 1601, a wire time seconds and nanoseconds from 1970.
use netfilum.Prelude.{ℕ, ◌+◌, ◌*◌, ◌/◌, ◌%◌, ◌^◌, ◌<◌, ◌≡◌, arith, min}
use netfilum.Prelude.{◌||◌, Option, none, some, ◌==◌, if◌then◌else◌}
use netfilum.Prelude.Int.{pos, pos_part, ◌+ℤ◌, ◌-ℤ◌, ◌≤ℤ◌, ltb_ℤ}
use netfilum.Protocol.{FileTimeValue}
use netfilum.Server.Times.{u64_max, saturating_mul}

abbrev pub windows_epoch_offset_secs : ℕ
windows_epoch_offset_secs = 11644473600

abbrev pub windows_ticks_per_second : ℕ
windows_ticks_per_second = 10000000

-- `u64::saturating_add`
abbrev pub saturating_add : ℕ → ℕ → ℕ
saturating_add a b = min (a + b) u64_max

-- Where the sum of the seconds and the offset passes an `i64`, its wrapped bits are, as a `u64`, the
-- sum itself.
unfoldable pub windows_time_from_wire : Option FileTimeValue → ℕ
unfolding ◌+ℤ◌ ◌-ℤ◌
windows_time_from_wire none = 0
windows_time_from_wire (some value) =
    if ltb_ℤ value.secs (pos 0 -ℤ pos windows_epoch_offset_secs)
    then 0
    else let unix_seconds = pos_part (value.secs +ℤ pos windows_epoch_offset_secs) in
      saturating_add (saturating_mul unix_seconds windows_ticks_per_second) (value.nanos / 100)

unfoldable pub wire_time_from_windows : ℕ → Option FileTimeValue
unfolding ◌-ℤ◌
wire_time_from_windows value =
    if value == 0 || value == u64_max
    then none
    else some (record {
      secs = pos (value / windows_ticks_per_second) -ℤ pos windows_epoch_offset_secs;
      nanos = value % windows_ticks_per_second * 100 % 2 ^ 32;
    })

-- A Windows time that goes to the wire comes back unchanged; the two values that stand for no time,
-- 0 and the largest one, come back as 0.
pub windows_time_from_wire-wire_time_from_windows :
    (value : ℕ)
    → value < 2 ^ 64
    → windows_time_from_wire (wire_time_from_windows value)
      ≡ (if value == u64_max then 0 else value)
unfolding windows_time_from_wire wire_time_from_windows
windows_time_from_wire-wire_time_from_windows value h = ground arith

-- A wire time from 1601 on whose Windows time is neither 0 nor saturated comes back with the same
-- seconds, and with its nanoseconds rounded down to a multiple of 100.
pub wire_time_from_windows-windows_time_from_wire :
    (t : FileTimeValue)
    → t.nanos < 1000000000
    → pos 0 ≤ℤ t.secs +ℤ pos windows_epoch_offset_secs
    → 0 < windows_time_from_wire (some t)
    → windows_time_from_wire (some t) < u64_max
    → wire_time_from_windows (windows_time_from_wire (some t))
      ≡ some (record t { nanos = t.nanos / 100 * 100 })
unfolding windows_time_from_wire wire_time_from_windows
wire_time_from_windows-windows_time_from_wire t n e lo hi = ground arith
