-- ===== src/Extcap/Tests.antt =====
-- The witnesses of the theorems on tools/ovextcap/main.c.
use libopenvizsla.Prelude.{
  Option, replicate, ℕ, ◌+◌, ◌*◌, ◌^◌, ◌<◌, ◌≤◌, ◌≡◌, inl, refl, true, [], ◌∷◌, ◌++◌, Bytes, some,
  none, length, arith, List, false, map,
}
use libopenvizsla.Decoder.State.{Packet, packet_decoder_init, need_packet_magic, need_frame_magic}
use libopenvizsla.Decoder.Frame.{frame_decoder_proc}
use libopenvizsla.Decoder.Valid.{FrameIsValid}
use libopenvizsla.Decoder.Wire.{Sent}
use libopenvizsla.Decoder.Wire.Stream.{framed, AreSent}
use libopenvizsla.Loop.State.{Control, Loop, running}
use libopenvizsla.Loop.Callbacks.{loop_ops}
use libopenvizsla.Loop.Limit.{calling}
use libopenvizsla.Loop.Delivery as Delivery
use libopenvizsla.Extcap.Callback.{handler_callback}
use libopenvizsla.Extcap.Sending.{sent_records, total_ticks}
use libopenvizsla.Extcap.System.{origin_of, FileHas, frame_decoder_proc-FileHas}
use libopenvizsla.Extcap.Pcap.{Host, PcapPacket, pcap_record}
use libopenvizsla.Extcap.Filter.{default, HandlerData, filter_packet}
use libopenvizsla.Extcap.Queue.{IsQueued, filter_packet-IsQueued}
use libopenvizsla.Extcap.Transactions.{filter_all, filter_all-IsNaked}
use libopenvizsla.Extcap.Output.{Reliable, joined}
use libopenvizsla.Extcap.Lossless.{WritesSome}
use libopenvizsla.Extcap.Stream.{Leaves, filter_all-Writes, filter_all-Leaves}
use libopenvizsla.Extcap.Handler.{ov_timestamp_freq_hz, advance_clock, nanoseconds, start_offset}
use libopenvizsla.Extcap.Clock.{time, advance_clock-time, nanoseconds_exact}

-- A file that takes everything, and one byte for each integer.
abbrev pub host : Host
host = record {
  File = Bytes;
  fwrite = λ bytes f. (true, f ++ bytes);
  fflush = λ f. (true, f);
  uint16_bytes = λ n. n ∷ [];
  uint32_bytes = λ n. n ∷ [];
}

abbrev packet_of : ℕ → PcapPacket
packet_of p = record { ts_sec = 1; ts_nsec = 2; incl_len = 1; orig_len = 1; captured = p ∷ [] }

abbrev handler : HandlerData Bytes
handler = record {
  output = some [];
  debug = none;
  utc_ts = 1000;
  ts_offset = 59_999_999;
  last_ov_ts = 500;
  filter_naks = true;
  filter_sofs = true;
  st = default;
  queue = [];
}

filter_packet-IsQueued_example :
    (h' : HandlerData Bytes) × (filter_packet host (packet_of 0x69) handler ≡ some h')
    × IsQueued h'.st h'.queue
    × (length h'.queue ≤ 2)
filter_packet-IsQueued_example =
    filter_packet-IsQueued host (packet_of 0x69) handler refl (omega arith)

filter_all-IsNaked_example :
    filter_all host (packet_of 0xe1 ∷ packet_of 0xc3 ∷ packet_of 0x5a ∷ []) handler ≡ some handler
filter_all-IsNaked_example =
    filter_all-IsNaked host (packet_of 0xe1 ∷ packet_of 0xc3 ∷ packet_of 0x5a ∷ []) handler
      (omega arith, omega arith, omega arith, refl, inl refl, refl) refl refl refl

advance_clock-time_example :
    (time (advance_clock (500 + 60) handler) ≡ time handler + 60)
    × ((advance_clock (500 + 60) handler).ts_offset < ov_timestamp_freq_hz)
advance_clock-time_example =
    advance_clock-time handler 60 (omega arith) (omega arith) (omega arith) (omega arith)

nanoseconds_exact_example :
    (50 * 7 ≤ 3 * nanoseconds 7)
    × (3 * nanoseconds 7 < 50 * 7 + 3)
    × (nanoseconds 7 < 10 ^ 9)
    × (start_offset 999_999_999 < ov_timestamp_freq_hz)
nanoseconds_exact_example = nanoseconds_exact 7 999_999_999 (omega arith) (omega arith)

pub host-Reliable : Reliable host (λ f. f)
host-Reliable = record { fwrite_lem = λ bytes f. (refl, refl); fflush_lem = λ f. (refl, refl) }

-- An IN token that no packet follows, and a transaction that ends in an ACK.
abbrev mixed : List PcapPacket
mixed = packet_of 0x69 ∷ packet_of 0xd2 ∷ packet_of 0xa5 ∷ packet_of 0x69 ∷ []

filter_all-Writes_example :
    WritesSome host host-Reliable handler []
      (map (pcap_record host) mixed)
      (filter_all host mixed handler)
filter_all-Writes_example =
    filter_all-Writes host host-Reliable mixed handler [] refl refl (omega arith)

abbrev plain_handler : HandlerData Bytes
plain_handler = record handler { last_ov_ts = 0; filter_naks = false; filter_sofs = false }

filter_all-Leaves_example :
    Leaves host host-Reliable
      (joined (map (pcap_record host) mixed))
      (filter_all host mixed plain_handler)
filter_all-Leaves_example =
    filter_all-Leaves host host-Reliable mixed plain_handler [] refl refl refl (omega arith)
      (refl, refl)

-- A loop without a limit whose callback is the tool's, and three packets of one byte in three frames.
abbrev pub no_packet : Packet
no_packet = record { magic = 0; flags = 0; size = 0; timestamp = 0; bytes = replicate 8 0 }

abbrev tool_control : Control (Option (HandlerData Bytes))
tool_control = record {
  reg = record { error_str = none; addr = replicate 15 0xc28 };
  error_str = none;
  callback = none;
  user_data = some plain_handler;
  count = 0;
  max_count = 0;
  state = running;
  active_transfers = 3;
  complete = false;
}

abbrev pub tool_loop : Loop (Option (HandlerData Bytes))
tool_loop = record {
  pd = packet_decoder_init no_packet 20 loop_ops (calling (handler_callback host) tool_control);
  state = need_frame_magic;
  word = 0;
  value = 0;
  checksum = 0;
}

abbrev byte_sent : ℕ → Sent
byte_sent b = record {
  magic = 0xa0;
  flags = 0;
  size = 1;
  ts_length = 1;
  ticks = 0xba;
  payload = b ∷ [];
}

abbrev bytes_sent : List Sent
bytes_sent = byte_sent 0x69 ∷ byte_sent 0xd2 ∷ byte_sent 0xa5 ∷ []

abbrev byte_frames : List Bytes
byte_frames =
    (0xa0 ∷ 0 ∷ 1 ∷ 0 ∷ 0xba ∷ 0x69 ∷ 0xa0 ∷ 0 ∷ 1 ∷ 0 ∷ [])
    ∷ (0xba ∷ 0xd2 ∷ [])
    ∷ (0xa0 ∷ 0 ∷ 1 ∷ 0 ∷ 0xba ∷ 0xa5 ∷ [])
    ∷ []

tool-user : tool_loop.pd.user ≡ calling (handler_callback host) tool_control
unfolding packet_decoder_init
tool-user = refl

tool-ops : tool_loop.pd.ops ≡ loop_ops
unfolding packet_decoder_init
tool-ops = refl

tool-state : tool_loop.pd.state ≡ need_packet_magic
unfolding packet_decoder_init
tool-state = refl

tool-FrameIsValid : FrameIsValid tool_loop
unfolding packet_decoder_init
tool-FrameIsValid = ground arith

bytes-AreSent : AreSent (length tool_loop.pd.packet.bytes) bytes_sent
unfolding packet_decoder_init
bytes-AreSent = ground arith

tool-since :
    (plain_handler.last_ov_ts ≤ tool_loop.pd.cumulative_ts)
    × (tool_loop.pd.cumulative_ts + total_ticks bytes_sent < 2 ^ 63)
unfolding packet_decoder_init
tool-since = (omega arith, omega arith)

frame_decoder_proc-FileHas_example :
    Delivery.Leaves
      (FileHas host host-Reliable (
        joined
          (sent_records host (origin_of host plain_handler) tool_loop.pd.cumulative_ts bytes_sent)))
      (frame_decoder_proc tool_loop (framed byte_frames))
frame_decoder_proc-FileHas_example =
    frame_decoder_proc-FileHas host host-Reliable tool_loop tool_control plain_handler [] bytes_sent
      byte_frames tool-user tool-ops refl tool-state tool-FrameIsValid bytes-AreSent (omega arith)
      refl (refl, (refl, (refl, tt))) refl refl refl refl refl (refl, refl) (omega arith)
      (omega arith) tool-since.0 tool-since.1
