-- ===== src/Extcap/Stream.antt =====
-- What a whole capture of tools/ovextcap/main.c writes.
use mathlib.Core.List.Sublist as Sub
use libopenvizsla.Prelude.{
  ◌≡◌, refl, sym, ap, ◌∙◌, false, Option, none, some, List, [], ◌∷◌, ◌++◌, map, append-nil,
  append_assoc, Bytes,
}
use mathlib.Core.Path.{subst}
use libopenvizsla.Extcap.Pcap.{Host, PcapPacket, pcap_record}
use libopenvizsla.Extcap.Filter.{
  default, HandlerData, filter_by_pid, pid, forward_queued_packets, discard_queued_packets,
}
use libopenvizsla.Extcap.Queue.{IsQueued, filter_by_pid-IsQueued, filter_packet-filter_by_pid}
use libopenvizsla.Extcap.Transactions.{filter_all}
use libopenvizsla.Extcap.Output.{Reliable, Has, joined, joined-append, write_all-Has}
use libopenvizsla.Extcap.Lossless.{
  IsPlain, Writes, WritesSome, AreCaptured, append-Writes, filter_by_pid-Writes,
}

module _ (host : Host) {content : host.File → Bytes} (rel : Reliable host content) where
  open host use {File}

  abbrev records : List PcapPacket → List Bytes
  records = map (pcap_record host)

  append-WritesSome :
      (h h1 : HandlerData File) (bs : Bytes) (rs ss : List Bytes) (w : Writes host rel h bs rs h1)
      (r : Option (HandlerData File))
      → WritesSome host rel h1 (bs ++ joined w.es) (h1.queue ++ ss) r
      → WritesSome host rel h bs (rs ++ ss) r
  append-WritesSome h h1 bs rs ss w none v = absurd v
  append-WritesSome h h1 bs rs ss w (some h2) v = append-Writes host rel h h1 h2 bs rs ss w v

  -- From a queue that fits the state, on a file that does not break and packets with captured data:
  -- no assertion fails, the file stays open, and the records that are written, with those that
  -- still wait behind them, are some of those that waited and of the packets', whole and in their
  -- order; if neither filter is on, they are all of them.
  pub filter_all-Writes :
      (ps : List PcapPacket) (h : HandlerData File) (bs : Bytes)
      → Has host rel h.output bs
      → IsQueued h.st h.queue
      → AreCaptured host rel ps
      → WritesSome host rel h bs (h.queue ++ map (pcap_record host) ps) (filter_all host ps h)
  filter_all-Writes [] h bs has q c = record {
    es = [];
    has = rw (append-nil bs) has;
    among = rw (append-nil h.queue) (Sub.refl h.queue);
    whole = λ plain. sym (append-nil h.queue);
    naks = refl;
    sofs = refl;
  }
  filter_all-Writes (p ∷ ps) h bs has q c =
      let h1 = filter_by_pid host (pid p) p h in
      let w = filter_by_pid-Writes host rel p h bs has (pid p) q in
      let rest =
        filter_all-Writes ps h1 (bs ++ joined w.es) w.has
          (filter_by_pid-IsQueued host h.st (pid p) p h refl q) c.1 in
      rw (filter_packet-filter_by_pid host h.st p h refl q c.0) (
        subst (λ t. WritesSome host rel h bs t (filter_all host ps h1))
          (append_assoc h.queue (pcap_record host p ∷ []) (records ps))
          (append-WritesSome h h1 bs _ (records ps) w (filter_all host ps h1) rest))

  -- The file at the end of a capture, behind the last discard_queued_packets.
  abbrev pub Leaves : Bytes → Option (HandlerData File) → Type 0
  Leaves bs none = ⊥
  Leaves bs (some h) = Has host rel (discard_queued_packets host h).output bs

  pub plain-Leaves :
      (h : HandlerData File) (bs : Bytes) (rs : List Bytes) (r : Option (HandlerData File))
      → IsPlain host rel h
      → WritesSome host rel h bs rs r
      → Leaves (bs ++ joined rs) r
  unfolding discard_queued_packets forward_queued_packets
  plain-Leaves h bs rs none plain w = absurd w
  plain-Leaves h bs rs (some h') plain w =
      let off : h'.filter_naks ≡ false = w.naks ∙ plain.0 in
      rw off (
        subst (Has host rel _)
          (append_assoc bs (joined w.es) (joined h'.queue)
            ∙ ap (λ t. bs ++ t) (sym (joined-append w.es h'.queue) ∙ ap joined (w.whole plain)))
          (write_all-Has host rel h'.queue _ h'.output w.has))

  -- A capture with both filters off, to a file that does not break: from the start of the filter, the
  -- packets' records are written one behind another, all of them and nothing else, once
  -- start_capture has called discard_queued_packets behind the last packet.
  pub filter_all-Leaves :
      (ps : List PcapPacket) (h : HandlerData File) (bs : Bytes)
      → Has host rel h.output bs
      → h.st ≡ default
      → h.queue ≡ []
      → AreCaptured host rel ps
      → IsPlain host rel h
      → Leaves (bs ++ joined (map (pcap_record host) ps)) (filter_all host ps h)
  filter_all-Leaves ps h bs has s q c plain =
      plain-Leaves h bs (records ps) (filter_all host ps h) plain (
        subst (λ t. WritesSome host rel h bs (t ++ records ps) (filter_all host ps h)) q
          (filter_all-Writes ps h bs has (rw s q) c))
