-- ===== src/Extcap/Filter.antt =====
-- The NAK and SOF filter of tools/ovextcap/main.c.
use libopenvizsla.Prelude.{
  ℕ, ltb, ◌==◌, Bool, true, false, not, ◌&&◌, ◌||◌, if◌then◌else◌, Option, none, some, List, [],
  ◌∷◌, ◌++◌, Bytes, get_or,
}
use libopenvizsla.Extcap.Pcap.{Host, PcapPacket, write_data, flush_data, write_packet, pcap_record}

pub data FilterState : Type 0 where
  default split out expect_nak : FilterState

abbrev pub is_default : FilterState → Bool
is_default default = true
is_default _ = false

abbrev pub is_split : FilterState → Bool
is_split split = true
is_split _ = false

abbrev pub is_out : FilterState → Bool
is_out out = true
is_out _ = false

abbrev pub is_expect_nak : FilterState → Bool
is_expect_nak expect_nak = true
is_expect_nak _ = false

abbrev pub usb_pid_token_sof : ℕ
usb_pid_token_sof = 0xa5

abbrev pub usb_pid_special_split : ℕ
usb_pid_special_split = 0x78

abbrev pub usb_pid_token_out : ℕ
usb_pid_token_out = 0xe1

abbrev pub usb_pid_token_in : ℕ
usb_pid_token_in = 0x69

abbrev pub usb_pid_special_ping : ℕ
usb_pid_special_ping = 0xb4

abbrev pub usb_pid_data_data0 : ℕ
usb_pid_data_data0 = 0xc3

abbrev pub usb_pid_data_data1 : ℕ
usb_pid_data_data1 = 0x4b

abbrev pub usb_pid_handshake_nak : ℕ
usb_pid_handshake_nak = 0x5a

-- `struct handler_data` without the device; `queue` is the linked list of records. Allocations
-- succeed.
pub record HandlerData (File : Type 0) : Type 0 where
  pub output : Option File
  pub debug : Option File
  pub utc_ts : ℕ
  pub ts_offset : ℕ
  pub last_ov_ts : ℕ
  pub filter_naks : Bool
  pub filter_sofs : Bool
  pub st : FilterState
  pub queue : List Bytes

abbrev pub is_empty : List Bytes → Bool
is_empty [] = true
is_empty (r ∷ q) = false

-- The first byte of the captured data.
abbrev pub pid : PcapPacket → ℕ
pid packet = get_or packet.captured 0 0

module _ (host : Host) where
  open host use {File}

  abbrev pub enter : FilterState → HandlerData File → HandlerData File
  enter s h = record h { st = s }

  unfoldable pub queue_packet : PcapPacket → HandlerData File → HandlerData File
  queue_packet pkt h = record h { queue = h.queue ++ (pcap_record host pkt ∷ []) }

  abbrev pub free_queued_packets : HandlerData File → HandlerData File
  free_queued_packets h = record h { queue = [] }

  unfoldable pub write_all : List Bytes → Option File → Option File
  write_all [] o = o
  write_all (r ∷ q) o = write_all q (flush_data host (write_data host r o))

  unfoldable pub forward_queued_packets : HandlerData File → HandlerData File
  forward_queued_packets h = free_queued_packets (record h { output = write_all h.queue h.output })

  unfoldable pub discard_queued_packets : HandlerData File → HandlerData File
  unfolding forward_queued_packets
  discard_queued_packets h =
      if not h.filter_naks then forward_queued_packets h else free_queued_packets h

  unfoldable pub forward_packet : PcapPacket → HandlerData File → HandlerData File
  forward_packet packet h = record h { output = write_packet host packet h.output }

  unfoldable pub discard_packet : PcapPacket → HandlerData File → HandlerData File
  unfolding forward_packet
  discard_packet packet h = if not h.filter_naks then forward_packet packet h else h

  -- Forwards what is queued and the packet.
  abbrev pub forward_all : PcapPacket → HandlerData File → HandlerData File
  forward_all packet h = forward_packet packet (forward_queued_packets h)

  -- The branches behind the assertions, in the source's order.
  unfoldable pub filter_by_pid : ℕ → PcapPacket → HandlerData File → HandlerData File
  unfolding queue_packet forward_queued_packets discard_queued_packets forward_packet discard_packet
  filter_by_pid p packet h =
      if p == usb_pid_token_sof
      then (if is_default h.st
          then (if not h.filter_sofs then forward_packet packet h else h)
          else enter default (forward_all packet h))
      else if p == usb_pid_special_split
      then enter split (forward_all packet h)
      else if is_split h.st
      then enter default (forward_packet packet h)
      else if p == usb_pid_token_out
      then enter out (queue_packet packet (forward_queued_packets h))
      else if is_out h.st && (p == usb_pid_data_data0 || p == usb_pid_data_data1)
      then enter expect_nak (queue_packet packet h)
      else if p == usb_pid_token_in || p == usb_pid_special_ping
      then enter expect_nak (queue_packet packet (forward_queued_packets h))
      else if is_expect_nak h.st && p == usb_pid_handshake_nak
      then enter default (discard_packet packet (discard_queued_packets h))
      else enter default (forward_all packet h)

  -- `none` is a failed `assert`. The data pointer is never null: it is the packet's array.
  unfoldable pub filter_packet : PcapPacket → HandlerData File → Option (HandlerData File)
  filter_packet packet h =
      if not (not (is_default h.st) || is_empty h.queue)
      then none
      else if not (not (is_split h.st) || is_empty h.queue)
      then none
      else if not (ltb 0 packet.incl_len)
      then none
      else some (filter_by_pid (pid packet) packet h)
