-- ===== src/Extcap/Clock.antt =====
-- The timestamps that tools/ovextcap/main.c writes.
use libopenvizsla.Prelude.{ℕ, ◌+◌, ◌*◌, ◌^◌, ◌≤◌, ◌<◌, ◌≡◌, arith}
use libopenvizsla.Extcap.Filter.{HandlerData}
use libopenvizsla.Extcap.Handler.{ov_timestamp_freq_hz, advance_clock, nanoseconds, start_offset}

-- The time in clocks since the epoch.
abbrev pub time : {File : Type 0} → HandlerData File → ℕ
time h = h.utc_ts * ov_timestamp_freq_hz + h.ts_offset

-- A packet's timestamp that lies `d` clocks behind the one before advances the time by `d` clocks,
-- while seconds fit 32 bits and clocks 63, and the offset stays below one second.
pub advance_clock-time :
    {File : Type 0} (h : HandlerData File) (d : ℕ)
    → h.ts_offset < ov_timestamp_freq_hz
    → h.last_ov_ts + d < 2 ^ 64
    → d < 2 ^ 63
    → time h + d < 2 ^ 32 * ov_timestamp_freq_hz
    → (time (advance_clock (h.last_ov_ts + d) h) ≡ time h + d)
      × ((advance_clock (h.last_ov_ts + d) h).ts_offset < ov_timestamp_freq_hz)
unfolding advance_clock
advance_clock-time h d o l s t = omega arith

-- An offset below one second gives its nanoseconds, 50/3 for each clock, rounded up, and below
-- 10 ^ 9; the offset at the start of a capture is below one second.
pub nanoseconds_exact :
    (ts_offset tv_nsec : ℕ)
    → ts_offset < ov_timestamp_freq_hz
    → tv_nsec < 10 ^ 9
    → (50 * ts_offset ≤ 3 * nanoseconds ts_offset)
      × (3 * nanoseconds ts_offset < 50 * ts_offset + 3)
      × (nanoseconds ts_offset < 10 ^ 9)
      × (start_offset tv_nsec < ov_timestamp_freq_hz)
unfolding nanoseconds start_offset
nanoseconds_exact ts_offset tv_nsec h k = omega arith
