-- ===== src/Clock.antt =====
-- `std::time` as the program uses it. A `Duration` and an `Instant` are counted in nanoseconds, an
-- `Instant` from the clock's origin. A `Duration` holds at most `u64::MAX` seconds and a fraction;
-- an `Instant` at most `i64::MAX` seconds and a fraction, as on Linux.
use veila.Prelude.{ℕ, ◌+◌, ◌-◌, ◌*◌, ◌/◌, ◌%◌, min, Option, none, some, leb, if◌then◌else◌}

abbrev pub Duration : Type 0
Duration = ℕ

abbrev pub Instant : Type 0
Instant = ℕ

abbrev pub u8_max : ℕ
u8_max = 255

abbrev pub u32_max : ℕ
u32_max = 4294967295

abbrev pub u64_max : ℕ
u64_max = 18446744073709551615

abbrev pub nanos_per_sec : ℕ
nanos_per_sec = 1000000000

abbrev pub nanos_per_milli : ℕ
nanos_per_milli = 1000000

abbrev pub duration_max : Duration
duration_max = 18446744073709551615999999999

abbrev pub instant_max : Instant
instant_max = 9223372036854775807999999999

abbrev pub from_secs : ℕ → Duration
from_secs s = s * nanos_per_sec

abbrev pub from_millis : ℕ → Duration
from_millis ms = ms * nanos_per_milli

abbrev pub as_secs : Duration → ℕ
as_secs d = d / nanos_per_sec

abbrev pub subsec_nanos : Duration → ℕ
subsec_nanos d = d % nanos_per_sec

abbrev pub as_millis : Duration → ℕ
as_millis d = d / nanos_per_milli

-- `Duration::saturating_mul`
abbrev pub saturating_mul : Duration → ℕ → Duration
saturating_mul d n = min (d * n) duration_max

-- `Instant::checked_add`; `Instant + Duration` is a panic where this is `none`.
abbrev pub checked_add : Instant → Duration → Option Instant
checked_add t d = if leb (t + d) instant_max then some (t + d) else none

-- `Instant::saturating_duration_since`
abbrev pub saturating_duration_since : Instant → Instant → Duration
saturating_duration_since later earlier = later - earlier

-- `saturating_add` at `u8` and at `u64`
abbrev pub saturating_add_u8 : ℕ → ℕ → ℕ
saturating_add_u8 a b = min (a + b) u8_max

abbrev pub saturating_add_u64 : ℕ → ℕ → ℕ
saturating_add_u64 a b = min (a + b) u64_max
