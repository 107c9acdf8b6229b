-- ===== src/Extcap/Pipeline.antt =====
-- From packets that the loop of src/cha.c delivers to the file of tools/ovextcap/main.c.
use mathlib.Core.Path.{subst}
use mathlib.Core.List.Sublist as Sub
use libopenvizsla.Prelude.{
  ℕ, ◌≡◌, refl, sym, ap, ◌∙◌, ltb, true, false, Bool-cases, inl, inr, Option, none, some, List, [],
  ◌∷◌, ◌++◌, map, append-nil, append_assoc, Bytes,
}
use libopenvizsla.Decoder.State.{Packet, has_flag, ov_flags_hf0_last}
use libopenvizsla.Loop.State.{Control}
use libopenvizsla.Loop.Callbacks.{called, call_user, cha_loop_packet_callback}
use libopenvizsla.Loop.Limit.{AreOngoing, calling, deliver_all}
use libopenvizsla.Extcap.Pcap.{Host, pcap_record}
use libopenvizsla.Extcap.Filter.{HandlerData, pid}
use libopenvizsla.Extcap.Handler.{advance_clock}
use libopenvizsla.Extcap.Queue.{IsQueued}
use libopenvizsla.Extcap.Output.{Reliable, Has, joined}
use libopenvizsla.Extcap.Lossless.{append-Writes}
use libopenvizsla.Extcap.Callback.{
  clock_of, captures, filter_by_pid-clock, handler_callback, Goes, stamped, pcap_of, filtered,
  full-Goes, full-handled, empty-handled,
}

module _ (host : Host) {content : host.File → Bytes} (rel : Reliable host content) where
  open host use {File}

  abbrev pub GoesSome : HandlerData File → Bytes → List Bytes → Option (HandlerData File) → Type 0
  GoesSome h bs rs none = ⊥
  GoesSome h bs rs (some h') = Goes host rel h bs rs h'

  pub append-GoesSome :
      (h h1 : HandlerData File) (bs : Bytes) (rs ss : List Bytes) (g : Goes host rel h bs rs h1)
      (r : Option (HandlerData File))
      → GoesSome h1 (bs ++ joined g.writes.es) (h1.queue ++ ss) r
      → GoesSome h bs (rs ++ ss) r
  append-GoesSome h h1 bs rs ss g none v = absurd v
  append-GoesSome h h1 bs rs ss g (some h2) v = record {
    writes = append-Writes host rel h h1 h2 bs rs ss g.writes v.writes;
    fits = v.fits;
  }

  abbrev pub records : List Packet → HandlerData File → List Bytes
  records ps k = map (pcap_record host) (captures host ps k)

  -- The first packet's record, and the rest by the clock that it leaves.
  pub full-records :
      (p : Packet) (ps : List Packet) (h : HandlerData File)
      → ltb 0 p.size ≡ true
      → records (p ∷ ps) (clock_of host h)
        ≡ pcap_record host (pcap_of host p h) ∷ records ps (clock_of host (filtered host p h))
  unfolding captures pcap_of filtered stamped advance_clock
  full-records p ps h full =
      rw
        (
          full,
          filter_by_pid-clock host (pid (pcap_of host p h)) (pcap_of host p h) (stamped host p h),
        )
        refl

  pub empty-records :
      (p : Packet) (ps : List Packet) (h : HandlerData File)
      → ltb 0 p.size ≡ false
      → records (p ∷ ps) (clock_of host h)
        ≡ records ps (clock_of host (advance_clock p.timestamp h))
  unfolding captures advance_clock
  empty-records p ps h empty = rw empty refl

  -- The loop without a limit on one packet.
  one_delivered :
      (p : Packet) (c : Control (Option (HandlerData File))) (h h' : HandlerData File)
      → c.max_count ≡ 0
      → c.user_data ≡ some h
      → has_flag p.flags ov_flags_hf0_last ≡ false
      → handler_callback host p (some h) ≡ (some h', false)
      → cha_loop_packet_callback p (calling (handler_callback host) c)
        ≡ calling (handler_callback host) (record c { user_data = some h' })
  unfolding cha_loop_packet_callback call_user called
  one_delivered p c h h' m u ongoing e = rw (u, e, m, ongoing) refl

  pub none-Goes :
      (h : HandlerData File) (bs : Bytes)
      → Has host rel h.output bs
      → IsQueued h.st h.queue
      → Goes host rel h bs (h.queue ++ records [] (clock_of host h)) h
  unfolding captures
  none-Goes h bs has q = record {
    writes = record {
      es = [];
      has = rw (append-nil bs) has;
      among = rw (append-nil h.queue) (Sub.refl h.queue);
      whole = λ plain. sym (append-nil h.queue);
      naks = refl;
      sofs = refl;
    };
    fits = q;
  }

  -- The clock does not matter to what is written.
  pub ticked-GoesSome :
      (ts : ℕ) (h : HandlerData File) (bs : Bytes) (rs : List Bytes) (r : Option (HandlerData File))
      → GoesSome (advance_clock ts h) bs rs r
      → GoesSome h bs rs r
  unfolding advance_clock
  ticked-GoesSome ts h bs rs none g = g
  ticked-GoesSome ts h bs rs (some h') g = record {
    writes = record {
      es = g.writes.es;
      has = g.writes.has;
      among = g.writes.among;
      whole = g.writes.whole;
      naks = g.writes.naks;
      sofs = g.writes.sofs;
    };
    fits = g.fits;
  }

  pub ticked :
      (ts : ℕ) (h : HandlerData File) (bs : Bytes)
      → Has host rel h.output bs
      → IsQueued h.st h.queue
      → Has host rel (advance_clock ts h).output bs
        × IsQueued (advance_clock ts h).st (advance_clock ts h).queue
  unfolding advance_clock
  ticked ts h bs has q = (has, q)

  pub ticked_queue :
      (ts : ℕ) (h : HandlerData File) (rs : List Bytes)
      → (advance_clock ts h).queue ++ rs ≡ h.queue ++ rs
  unfolding advance_clock
  ticked_queue ts h rs = refl

  none_delivered :
      (c : Control (Option (HandlerData File)))
      → (deliver_all [] (calling (handler_callback host) c)).user_data ≡ c.user_data
  unfolding deliver_all
  none_delivered c = refl

  -- Behind the first packet the loop goes on with the handler `h'`.
  delivered :
      (p : Packet) (ps : List Packet) (c : Control (Option (HandlerData File)))
      (h h' : HandlerData File)
      → c.max_count ≡ 0
      → c.user_data ≡ some h
      → has_flag p.flags ov_flags_hf0_last ≡ false
      → handler_callback host p (some h) ≡ (some h', false)
      → (deliver_all ps
          (calling (handler_callback host) (record c { user_data = some h' }))).user_data
        ≡ (deliver_all (p ∷ ps) (calling (handler_callback host) c)).user_data
  unfolding deliver_all
  delivered p ps c h h' m u ongoing e =
      ap (λ d. (deliver_all ps d).user_data) (sym (one_delivered p c h h' m u ongoing e))

  -- What the packets do that the loop delivers.
  pub deliver_all-GoesSome :
      (ps : List Packet) (c : Control (Option (HandlerData File))) (h : HandlerData File)
      (bs : Bytes)
      → c.max_count ≡ 0
      → c.user_data ≡ some h
      → AreOngoing ps
      → Has host rel h.output bs
      → IsQueued h.st h.queue
      → GoesSome h bs
          (h.queue ++ map (pcap_record host) (captures host ps (clock_of host h)))
          (deliver_all ps (calling (handler_callback host) c)).user_data
  deliver_all-GoesSome [] c h bs m u ongoing has q =
      subst (GoesSome h bs _) (sym (none_delivered c ∙ u)) (none-Goes h bs has q)
  deliver_all-GoesSome (p ∷ ps) c h bs m u ongoing has q = elim (Bool-cases (ltb 0 p.size)) [
    | inl full ↦
        let g = full-Goes host rel p h bs has q in
        let h' = filtered host p h in
        let c' = record c { user_data = some h' } in
        let rest =
          deliver_all-GoesSome ps c' h' (bs ++ joined g.writes.es) m refl ongoing.1 g.writes.has
            g.fits in
        subst (GoesSome h bs _)
          (delivered p ps c h h' m u ongoing.0 (full-handled host rel p h bs has q full))
          (subst
            (λ rs. GoesSome h bs rs (deliver_all ps (calling (handler_callback host) c')).user_data)
            (append_assoc h.queue (pcap_record host (pcap_of host p h) ∷ [])
                (records ps (clock_of host h'))
              ∙ ap (λ rs. h.queue ++ rs) (sym (full-records p ps h full)))
            (append-GoesSome h h' bs _ (records ps (clock_of host h')) g _ rest))
    | inr empty ↦
        let h' = advance_clock p.timestamp h in
        let (has', q') = ticked p.timestamp h bs has q in
        let c' = record c { user_data = some h' } in
        let rest = deliver_all-GoesSome ps c' h' bs m refl ongoing.1 has' q' in
        subst (GoesSome h bs _)
          (delivered p ps c h h' m u ongoing.0 (empty-handled host rel p h empty))
          (subst
            (λ rs. GoesSome h bs rs (deliver_all ps (calling (handler_callback host) c')).user_data)
            (ticked_queue p.timestamp h (records ps (clock_of host h'))
              ∙ ap (λ rs. h.queue ++ rs) (sym (empty-records p ps h empty)))
            (ticked-GoesSome p.timestamp h bs _ _ rest))
  ]
