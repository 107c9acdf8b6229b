-- ===== src/Extcap/Pcap.antt =====
-- The output of tools/ovextcap/main.c: files that may break, and pcap records.
use libopenvizsla.Prelude.{ℕ, Bool, if◌then◌else◌, Option, none, some, ◌++◌, Bytes, take}

-- What the host gives: `fwrite` of one item and `fflush`, each with whether it succeeded, and how
-- an integer stands in memory.
pub record Host : Type 1 where
  pub File : Type 0
  pub fwrite : Bytes → File → Bool × File
  pub fflush : File → Bool × File
  pub uint16_bytes : ℕ → Bytes
  pub uint32_bytes : ℕ → Bytes

-- `struct pcap_packet`
pub record PcapPacket : Type 0 where
  pub ts_sec : ℕ
  pub ts_nsec : ℕ
  pub incl_len : ℕ
  pub orig_len : ℕ
  pub captured : Bytes

module _ (host : Host) where
  open host use {File, fwrite, fflush, uint16_bytes, uint32_bytes}

  -- `FILE* out`, null once the file is closed. A failure closes it.
  abbrev kept : Bool × File → Option File
  kept r = if r.0 then some r.1 else none

  unfoldable pub write_data : Bytes → Option File → Option File
  write_data bytes none = none
  write_data bytes (some f) = kept (fwrite bytes f)

  unfoldable pub flush_data : Option File → Option File
  flush_data none = none
  flush_data (some f) = kept (fflush f)

  abbrev pub write_uint16 : ℕ → Option File → Option File
  write_uint16 value = write_data (uint16_bytes value)

  abbrev pub write_uint32 : ℕ → Option File → Option File
  write_uint32 value = write_data (uint32_bytes value)

  unfoldable pub write_pcap_header : ℕ → Option File → Option File
  write_pcap_header linktype out =
      let out = write_uint32 0xa1b2_3c4d out in
      let out = write_uint16 2 out in
      let out = write_uint16 4 out in
      let out = write_uint32 0 out in
      let out = write_uint32 0 out in
      let out = write_uint32 65535 out in let out = write_uint32 linktype out in flush_data out

  unfoldable pub write_packet : PcapPacket → Option File → Option File
  write_packet packet out =
      let out = write_uint32 packet.ts_sec out in
      let out = write_uint32 packet.ts_nsec out in
      let out = write_uint32 packet.incl_len out in
      let out = write_uint32 packet.orig_len out in
      let out = write_data (take packet.incl_len packet.captured) out in flush_data out

  -- The bytes that `queue_packet` copies: a pcap record.
  abbrev pub pcap_record : PcapPacket → Bytes
  pcap_record pkt =
      uint32_bytes pkt.ts_sec
      ++ (uint32_bytes pkt.ts_nsec
          ++ (uint32_bytes pkt.incl_len
              ++ (uint32_bytes pkt.orig_len ++ take pkt.incl_len pkt.captured)))
