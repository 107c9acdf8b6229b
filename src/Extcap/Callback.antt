-- ===== src/Extcap/Callback.antt =====
-- What `packet_handler` of tools/ovextcap/main.c does with one packet, as the capture's callback.
use libopenvizsla.Prelude.{
  ℕ, ◌<◌, ◌≡◌, refl, ltb, Bool, true, false, if◌then◌else◌, Option, none, some, List, [], ◌∷◌, ◌++◌,
  Bytes, arith,
}
use libopenvizsla.Decoder.State.{Packet, captured_size}
use libopenvizsla.Extcap.Pcap.{Host, PcapPacket, pcap_record, write_packet}
use libopenvizsla.Extcap.Filter.{
  default, HandlerData, filter_by_pid, pid, forward_packet, forward_queued_packets, discard_packet,
  discard_queued_packets, queue_packet,
}
use libopenvizsla.Extcap.Handler.{advance_clock, pcap_packet, packet_handler, is_closed}
use libopenvizsla.Extcap.Queue.{IsQueued, filter_by_pid-IsQueued, filter_packet-filter_by_pid}
use libopenvizsla.Extcap.Output.{Reliable, Has}
use libopenvizsla.Extcap.Lossless.{Writes, filter_by_pid-Writes}

module _ (host : Host) where
  open host use {File}

  -- The clock of the handler alone.
  abbrev pub clock_of : HandlerData File → HandlerData File
  clock_of h = record h {
    output = none;
    debug = none;
    filter_naks = false;
    filter_sofs = false;
    st = default;
    queue = [];
  }

  -- The pcap packets of the packets, of those that are not empty, by the clock.
  unfoldable pub captures : List Packet → HandlerData File → List PcapPacket
  captures [] k = []
  captures (p ∷ ps) k =
      let k1 = clock_of (advance_clock p.timestamp k) in
      let rest = captures ps k1 in if ltb 0 p.size then pcap_packet host p k1 ∷ rest else rest

  pub filter_by_pid-clock :
      (p : ℕ) (packet : PcapPacket) (h : HandlerData File)
      → clock_of (filter_by_pid host p packet h) ≡ clock_of h
  unfolding filter_by_pid queue_packet forward_queued_packets discard_queued_packets forward_packet
      discard_packet
  filter_by_pid-clock p packet h = ground arith

  captured_pos : (p : Packet) → ltb 0 p.size ≡ true → 0 < captured_size p
  unfolding captured_size
  captured_pos p h = ground arith

  -- The handler's callback: a failed `assert` leaves no handler.
  abbrev pub handled_by : Option (HandlerData File × Bool) → Option (HandlerData File) × Bool
  handled_by none = (none, false)
  handled_by (some (h, breaks)) = (some h, breaks)

  abbrev pub handler_callback :
      Packet → Option (HandlerData File) → Option (HandlerData File) × Bool
  handler_callback p none = (none, false)
  handler_callback p (some h) = handled_by (packet_handler host p h)

  -- The handler that the filter gets.
  unfoldable pub stamped : Packet → HandlerData File → HandlerData File
  stamped p h =
      let h1 = advance_clock p.timestamp h in
      record h1 { debug = write_packet host (pcap_packet host p h1) h1.debug }

  -- A packet's record.
  unfoldable pub pcap_of : Packet → HandlerData File → PcapPacket
  pcap_of p h = pcap_packet host p (advance_clock p.timestamp h)

  unfoldable pub filtered : Packet → HandlerData File → HandlerData File
  unfolding stamped pcap_of
  filtered p h = filter_by_pid host (pid (pcap_of p h)) (pcap_of p h) (stamped p h)

module _ (host : Host) {content : host.File → Bytes} (rel : Reliable host content) where
  open host use {File}

  -- The handler `h`, from the contents `bs`, came to `r`: no assertion failed, the capture goes on,
  -- the queue fits the state, and the records `rs` were filtered.
  pub record Goes (h : HandlerData File) (bs : Bytes) (rs : List Bytes) (h' : HandlerData File)
      : Type 0 where
    pub writes : Writes host rel h bs rs h'
    pub fits : IsQueued h'.st h'.queue

  open_goes_on : (o : Option File) (bs : Bytes) → Has host rel o bs → is_closed o ≡ false
  open_goes_on none bs h = absurd h
  open_goes_on (some f) bs h = refl

  pub full-Goes :
      (p : Packet) (h : HandlerData File) (bs : Bytes)
      → Has host rel h.output bs
      → IsQueued h.st h.queue
      → Goes h bs (h.queue ++ (pcap_record host (pcap_of host p h) ∷ [])) (filtered host p h)
  unfolding filtered stamped pcap_of advance_clock
  full-Goes p h bs has q =
      let w =
        filter_by_pid-Writes host rel (pcap_of host p h) (stamped host p h) bs has
          (pid (pcap_of host p h)) q in
      record {
        writes = record {
          es = w.es;
          has = w.has;
          among = w.among;
          whole = w.whole;
          naks = w.naks;
          sofs = w.sofs;
        };
        fits =
            filter_by_pid-IsQueued host h.st (pid (pcap_of host p h)) (pcap_of host p h)
              (stamped host p h) refl q;
      }

  pub full-handled :
      (p : Packet) (h : HandlerData File) (bs : Bytes)
      → Has host rel h.output bs
      → IsQueued h.st h.queue
      → ltb 0 p.size ≡ true
      → handler_callback host p (some h) ≡ (some (filtered host p h), false)
  unfolding packet_handler filtered stamped pcap_of advance_clock
  full-handled p h bs has q full =
      let runs =
        filter_packet-filter_by_pid host h.st (pcap_of host p h) (stamped host p h) refl q
          (captured_pos host p full) in
      let goes = full-Goes p h bs has q in
      let open' = open_goes_on (filtered host p h).output _ goes.writes.has in
      rw (full, runs, open') refl

  pub empty-handled :
      (p : Packet) (h : HandlerData File)
      → ltb 0 p.size ≡ false
      → handler_callback host p (some h) ≡ (some (advance_clock p.timestamp h), false)
  unfolding packet_handler
  empty-handled p h empty = rw empty refl
