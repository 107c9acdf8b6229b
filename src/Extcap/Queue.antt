-- ===== src/Extcap/Queue.antt =====
-- The queue of the filter of tools/ovextcap/main.c.
use libopenvizsla.Prelude.{
  ℕ, ◌≤◌, ◌<◌, ◌≡◌, refl, List, [], ◌∷◌, Bytes, some, length, length-append, arith,
}
use libopenvizsla.Extcap.Pcap.{Host, PcapPacket, pcap_record}
use libopenvizsla.Extcap.Filter.{
  FilterState, default, split, out, expect_nak, HandlerData, filter_packet, filter_by_pid, pid,
}

-- How many records wait, by the state of the filter.
abbrev pub IsQueued : FilterState → List Bytes → Type 0
IsQueued default q = q ≡ []
IsQueued split q = q ≡ []
IsQueued out q = length q ≡ 1
IsQueued expect_nak q = (0 < length q) × (length q ≤ 2)

-- The list length is no greater than 2.
at_most_two : (s : FilterState) (q : List Bytes) → IsQueued s q → length q ≤ 2
at_most_two default q h = ground arith
at_most_two split q h = ground arith
at_most_two out q h = omega arith
at_most_two expect_nak q h = h.1

module _ (host : Host) where
  open host use {File}

  pub filter_by_pid-IsQueued :
      (s : FilterState) (p : ℕ) (packet : PcapPacket) (h : HandlerData File)
      → h.st ≡ s
      → IsQueued s h.queue
      → IsQueued (filter_by_pid host p packet h).st (filter_by_pid host p packet h).queue
  unfolding filter_by_pid
  filter_by_pid-IsQueued default p packet h e q =
      ground (arith, length-append h.queue (pcap_record host packet ∷ []))
  filter_by_pid-IsQueued _ p packet h e q =
      ground (arith, length-append h.queue (pcap_record host packet ∷ []))

  -- The assertions hold.
  pub filter_packet-filter_by_pid :
      (s : FilterState) (packet : PcapPacket) (h : HandlerData File)
      → h.st ≡ s
      → IsQueued s h.queue
      → 0 < packet.incl_len
      → filter_packet host packet h ≡ some (filter_by_pid host (pid packet) packet h)
  unfolding filter_packet
  filter_packet-filter_by_pid default packet h e q l = ground arith
  filter_packet-filter_by_pid _ packet h e q l = ground arith

  -- From a queue that fits the state, a packet with captured data fails no assertion, and leaves a
  -- queue that fits the new state, with two records at most.
  pub filter_packet-IsQueued :
      (packet : PcapPacket) (h : HandlerData File)
      → IsQueued h.st h.queue
      → 0 < packet.incl_len
      → (h' : HandlerData File) × (filter_packet host packet h ≡ some h')
        × IsQueued h'.st h'.queue
        × (length h'.queue ≤ 2)
  filter_packet-IsQueued packet h q l =
      let h' = filter_by_pid host (pid packet) packet h in
      let fits = filter_by_pid-IsQueued h.st (pid packet) packet h refl q in
      (
        h',
        filter_packet-filter_by_pid h.st packet h refl q l,
        fits,
        at_most_two h'.st h'.queue fits,
      )
