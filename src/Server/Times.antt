-- ===== src/Server/Times.antt =====
-- crates/netfilum-server/src/server.rs: `system_time_to_wire`, `file_time_to_filetime` and the
-- arithmetic of `filesystem_capacity`.
use netfilum.Prelude.{ℕ, ◌-◌, ◌*◌, ◌^◌, min, Option, none, some, ltb, if◌then◌else◌}
use netfilum.Prelude.Int.{ℤ, pos, negsuc, ltb_ℤ}
use netfilum.Protocol.{FileTimeValue}
use netfilum.Server.Fs.{Fs, SystemTime, Statvfs}

-- `n as i64` for a `u64`.
abbrev pub as_i64 : ℕ → ℤ
as_i64 n = if ltb n (2 ^ 63) then pos n else negsuc (2 ^ 64 - n - 1)

-- `duration_since(UNIX_EPOCH)` fails before the epoch.
abbrev pub wire_of_time : ℤ → ℕ → Option FileTimeValue
wire_of_time (pos n) nanos = some (record { secs = as_i64 n; nanos = nanos })
wire_of_time (negsuc n) nanos = none

unfoldable pub system_time_to_wire : Option SystemTime → Option FileTimeValue
system_time_to_wire none = none
system_time_to_wire (some t) = wire_of_time t.secs t.nanos

unfoldable pub file_time_to_filetime : (F : Fs) → FileTimeValue → Option F.FileTime
file_time_to_filetime F value =
    if ltb_ℤ value.secs (pos 0) then none else some (F.from_unix_time value.secs value.nanos)

abbrev pub u64_max : ℕ
u64_max = 2 ^ 64 - 1

-- `u64::saturating_mul`
abbrev pub saturating_mul : ℕ → ℕ → ℕ
saturating_mul a b = min (a * b) u64_max

unfoldable pub block_size : Statvfs → ℕ
block_size s = if ltb 0 s.f_frsize then s.f_frsize else s.f_bsize

-- The pair that `filesystem_capacity` returns.
unfoldable pub capacity : Statvfs → ℕ × ℕ
unfolding block_size
capacity s =
    let size = block_size s in (saturating_mul size s.f_blocks, saturating_mul size s.f_bavail)
