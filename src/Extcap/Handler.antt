-- ===== src/Extcap/Handler.antt =====
-- `packet_handler` of tools/ovextcap/main.c: the callback that gets each packet.
use libopenvizsla.Prelude.{
  ℕ, ◌+◌, ◌-◌, ◌*◌, ◌/◌, ◌%◌, ◌^◌, ltb, Bool, true, false, if◌then◌else◌, Option, none, some,
}
use libopenvizsla.Decoder.State.{Packet, captured_size}
use libopenvizsla.Extcap.Pcap.{Host, PcapPacket, write_packet}
use libopenvizsla.Extcap.Filter.{HandlerData, filter_packet}

abbrev pub ov_timestamp_freq_hz : ℕ
ov_timestamp_freq_hz = 60_000_000

-- `data->ts_offset + diff_ts`, in 64 bits
abbrev pub clocks : {File : Type 0} → ℕ → HandlerData File → ℕ
clocks ts h = (h.ts_offset + (ts + 2 ^ 64 - h.last_ov_ts) % 2 ^ 64) % 2 ^ 64

-- The clock's part of the handler.
unfoldable pub advance_clock : {File : Type 0} → ℕ → HandlerData File → HandlerData File
advance_clock ts h = record h {
  last_ov_ts = ts;
  utc_ts = (h.utc_ts + clocks ts h / ov_timestamp_freq_hz) % 2 ^ 32;
  ts_offset = clocks ts h % ov_timestamp_freq_hz;
}

-- `nsec`, a `uint32_t`
unfoldable pub nanoseconds : ℕ → ℕ
nanoseconds ts_offset = ((ts_offset * 17) % 2 ^ 32 + 2 ^ 32 - ts_offset / 3) % 2 ^ 32

-- `data.ts_offset` at the start of a capture, from the nanoseconds of the realtime clock
unfoldable pub start_offset : ℕ → ℕ
start_offset tv_nsec = tv_nsec / 17 + tv_nsec / 850

abbrev pub is_closed : {File : Type 0} → Option File → Bool
is_closed none = true
is_closed (some f) = false

module _ (host : Host) where
  open host use {File}

  abbrev pub pcap_packet : Packet → HandlerData File → PcapPacket
  pcap_packet packet h = record {
    ts_sec = h.utc_ts;
    ts_nsec = nanoseconds h.ts_offset;
    incl_len = captured_size packet;
    orig_len = packet.size;
    captured = packet.bytes;
  }

  -- The flag says that `ov_capture_breakloop` is called. `none` is a failed `assert` of the filter.
  abbrev ended : HandlerData File → HandlerData File × Bool
  ended h = (h, is_closed h.output)

  abbrev handled : Option (HandlerData File) → Option (HandlerData File × Bool)
  handled none = none
  handled (some h) = some (ended h)

  unfoldable pub packet_handler : Packet → HandlerData File → Option (HandlerData File × Bool)
  packet_handler packet data0 =
      let h = advance_clock packet.timestamp data0 in
      if ltb 0 packet.size
      then (let pkt = pcap_packet packet h in
          handled (filter_packet host pkt (record h { debug = write_packet host pkt h.debug })))
      else some (h, false)
