-- ===== src/Extcap/Fed.antt =====
-- What the callback of tools/ovextcap/main.c makes of the packets that it is called on.
use mathlib.Core.Path.{subst}
use libopenvizsla.Prelude.{
  ◌≡◌, refl, sym, ap, ◌∙◌, ltb, Bool-cases, inl, inr, some, List, [], ◌∷◌, ◌++◌, Bytes,
  append_assoc,
}
use libopenvizsla.Decoder.State.{Packet}
use libopenvizsla.Loop.Limit.{fed}
use libopenvizsla.Extcap.Pcap.{Host, pcap_record}
use libopenvizsla.Extcap.Filter.{HandlerData, default}
use libopenvizsla.Extcap.Handler.{advance_clock}
use libopenvizsla.Extcap.Queue.{IsQueued}
use libopenvizsla.Extcap.Output.{Reliable, Has, joined}
use libopenvizsla.Extcap.Lossless.{IsPlain}
use libopenvizsla.Extcap.Stream.{Leaves, plain-Leaves}
use libopenvizsla.Extcap.Callback.{
  clock_of, handler_callback, pcap_of, filtered, full-Goes, full-handled, empty-handled,
}
use libopenvizsla.Extcap.Pipeline.{
  GoesSome, records, full-records, empty-records, append-GoesSome, none-Goes, ticked-GoesSome,
  ticked, ticked_queue,
}
use libopenvizsla.Extcap.System.{GoesSome-WritesSome}

module _ (host : Host) {content : host.File → Bytes} (rel : Reliable host content) where
  open host use {File}

  fed-GoesSome :
      (ps : List Packet) (h : HandlerData File) (bs : Bytes)
      → Has host rel h.output bs
      → IsQueued h.st h.queue
      → GoesSome host rel h bs
          (h.queue ++ records host rel ps (clock_of host h))
          (fed (handler_callback host) ps (some h))
  fed-GoesSome [] h bs has q = none-Goes host rel h bs has q
  fed-GoesSome (p ∷ ps) h bs has q = elim (Bool-cases (ltb 0 p.size)) [
    | inl full ↦
        let g = full-Goes host rel p h bs has q in
        let h' = filtered host p h in
        let rest = fed-GoesSome ps h' (bs ++ joined g.writes.es) g.writes.has g.fits in
        subst
          (λ r.
            GoesSome host rel h bs (h.queue ++ records host rel (p ∷ ps) (clock_of host h))
              (fed (handler_callback host) ps r))
          (sym (ap (λ x. x.0) (full-handled host rel p h bs has q full)))
          (subst (λ rs. GoesSome host rel h bs rs (fed (handler_callback host) ps (some h')))
            (append_assoc h.queue (pcap_record host (pcap_of host p h) ∷ [])
                (records host rel ps (clock_of host h'))
              ∙ ap (λ rs. h.queue ++ rs) (sym (full-records host rel p ps h full)))
            (append-GoesSome host rel h h' bs _ (records host rel ps (clock_of host h')) g _ rest))
    | inr empty ↦
        let h' = advance_clock p.timestamp h in
        let (has', q') = ticked host rel p.timestamp h bs has q in
        let rest = fed-GoesSome ps h' bs has' q' in
        subst
          (λ r.
            GoesSome host rel h bs (h.queue ++ records host rel (p ∷ ps) (clock_of host h))
              (fed (handler_callback host) ps r))
          (sym (ap (λ x. x.0) (empty-handled host rel p h empty)))
          (subst (λ rs. GoesSome host rel h bs rs (fed (handler_callback host) ps (some h')))
            (ticked_queue host rel p.timestamp h (records host rel ps (clock_of host h'))
              ∙ ap (λ rs. h.queue ++ rs) (sym (empty-records host rel p ps h empty)))
            (ticked-GoesSome host rel p.timestamp h bs _ _ rest))
  ]

  -- With both filters off, the end of the capture leaves a record for each packet that is not empty.
  pub fed-Leaves :
      (ps : List Packet) (h : HandlerData File) (bs : Bytes)
      → Has host rel h.output bs
      → h.st ≡ default
      → h.queue ≡ []
      → IsPlain host rel h
      → Leaves host rel
          (bs ++ joined (records host rel ps (clock_of host h)))
          (fed (handler_callback host) ps (some h))
  fed-Leaves ps h bs has s q plain =
      let r = fed (handler_callback host) ps (some h) in
      let rs = records host rel ps (clock_of host h) in
      plain-Leaves host rel h bs rs r plain (
        GoesSome-WritesSome host rel h bs rs r (
          subst (λ t. GoesSome host rel h bs (t ++ rs) r) q
            (fed-GoesSome ps h bs has (rw (s, q) refl))))
