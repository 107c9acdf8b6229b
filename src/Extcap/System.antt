-- ===== src/Extcap/System.antt =====
-- From the bytes on the wire to the file of tools/ovextcap/main.c: the decoder of src/decoder.c, the
-- callbacks of src/cha.c and the handler of the tool.
use mathlib.Core.Path.{subst}
use libopenvizsla.Prelude.{
  ◌≡◌, refl, sym, ap, ◌∙◌, Option, none, some, List, [], ◌++◌, map, Bytes, length, ◌<◌, ◌^◌, ◌≤◌,
  ◌+◌, arith, ◌+◌, ◌^◌, ◌<◌, ◌≤◌,
}
use libopenvizsla.Decoder.State.{Packet, need_packet_magic, need_frame_magic}
use libopenvizsla.Decoder.Frame.{frame_decoder_proc}
use libopenvizsla.Decoder.Valid.{FrameIsValid}
use libopenvizsla.Decoder.Wire.{Sent}
use libopenvizsla.Decoder.Wire.Stream as Wire
use libopenvizsla.Decoder.Wire.Stream.{
  framed, AreFrames, AreSent, encode_all, frame_decoder_proc-encode_all,
}
use libopenvizsla.Loop.State.{Control, Loop}
use libopenvizsla.Loop.Callbacks.{loop_ops}
use libopenvizsla.Loop.Limit.{AreOngoing, calling, deliver_all}
use libopenvizsla.Loop.Delivery as Delivery
use libopenvizsla.Loop.Delivery.{
  NoneIsLast, packets_of, packets_of-AreOngoing, received_all-deliver_all, FedHas, seen-Leaves,
}
use libopenvizsla.Extcap.Records.{Time, captures-records}
use libopenvizsla.Extcap.Sending.{Origin, total_ticks, sent_records, packets_of-records}
use libopenvizsla.Extcap.Pcap.{Host, pcap_record}
use libopenvizsla.Extcap.Filter.{default, HandlerData}
use libopenvizsla.Extcap.Output.{Reliable, Has, joined}
use libopenvizsla.Extcap.Lossless.{IsPlain, WritesSome}
use libopenvizsla.Extcap.Stream.{Leaves, plain-Leaves}
use libopenvizsla.Extcap.Callback.{clock_of, captures, handler_callback}
use libopenvizsla.Extcap.Pipeline.{GoesSome, deliver_all-GoesSome}

module _ (host : Host) where
  open host use {File}

  -- The clock of the handler as an origin of time.
  abbrev pub origin_of : HandlerData File → Origin
  origin_of h = record { sec = h.utc_ts; base = h.ts_offset; since = h.last_ov_ts }

  captures-sent :
      (loop : Loop (Option (HandlerData File))) (h : HandlerData File) (ss : List Sent)
      → h.utc_ts < 2 ^ 32
      → h.ts_offset < 60_000_000
      → h.last_ov_ts ≤ loop.pd.cumulative_ts
      → loop.pd.cumulative_ts + total_ticks ss < 2 ^ 63
      → AreSent (length loop.pd.packet.bytes) ss
      → map (pcap_record host) (captures host (packets_of loop.pd ss) (clock_of host h))
        ≡ sent_records host (origin_of h) loop.pd.cumulative_ts ss
  captures-sent loop h ss sec clocks since small v =
      let t : Time = record { sec = h.utc_ts; clocks = h.ts_offset; counter = h.last_ov_ts } in
      captures-records host (packets_of loop.pd ss) t (clock_of host h) (omega arith, refl, refl)
      ∙ packets_of-records host (origin_of h) loop.pd ss t (omega arith, omega arith, omega arith)
          since small v

module _ (host : Host) {content : host.File → Bytes} (rel : Reliable host content) where
  open host use {File}

  pub GoesSome-WritesSome :
      (h : HandlerData File) (bs : Bytes) (rs : List Bytes) (r : Option (HandlerData File))
      → GoesSome host rel h bs rs r
      → WritesSome host rel h bs rs r
  GoesSome-WritesSome h bs rs none g = g
  GoesSome-WritesSome h bs rs (some h') g = g.writes

  -- The file behind the loop, once the capture has ended.
  abbrev pub FileHas : Bytes → Control (Option (HandlerData File)) → Type 0
  FileHas bs c = Leaves host rel bs c.user_data

  -- What the delivered packets leave, the loop's callback being the tool's.
  pub delivered-FileHas :
      (ps : List Packet) (c : Control (Option (HandlerData File))) (h : HandlerData File)
      (bs : Bytes)
      → c.user_data ≡ some h
      → c.max_count ≡ 0
      → AreOngoing ps
      → Has host rel h.output bs
      → h.st ≡ default
      → h.queue ≡ []
      → IsPlain host rel h
      → FileHas
          (bs ++ joined (map (pcap_record host) (captures host ps (clock_of host h))))
          (deliver_all ps (calling (handler_callback host) c))
  delivered-FileHas ps c h bs u m ongoing has s q plain =
      let r = (deliver_all ps (calling (handler_callback host) c)).user_data in
      let rs = map (pcap_record host) (captures host ps (clock_of host h)) in
      plain-Leaves host rel h bs rs r plain (
        GoesSome-WritesSome h bs rs r (
          subst (λ t. GoesSome host rel h bs (t ++ rs) r) q
            (deliver_all-GoesSome host rel ps c h bs m u ongoing has (rw (s, q) refl))))

  -- Packets with data, none of them marked as the last, that reach a running loop without a limit in
  -- one call of the decoder, cut into SDRAM frames at any places, with the tool's handler as the
  -- callback, both filters off and a file that does not break: at the end of the capture the file
  -- has, behind what it had, one pcap record for each packet whose size is not 0, in order, with the
  -- size and the payload that were sent and the time at which it was sent, and nothing else. The
  -- handler's clock is at a time not behind the decoder's, and the counter stays below 2 ^ 63.
  pub frame_decoder_proc-FileHas :
      (loop : Loop (Option (HandlerData File))) (c : Control (Option (HandlerData File)))
      (h : HandlerData File) (bs : Bytes) (ss : List Sent) (cs : List Bytes)
      → loop.pd.user ≡ calling (handler_callback host) c
      → loop.pd.ops ≡ loop_ops
      → loop.state ≡ need_frame_magic
      → loop.pd.state ≡ need_packet_magic
      → FrameIsValid loop
      → AreSent (length loop.pd.packet.bytes) ss
      → AreFrames cs
      → Wire.joined cs ≡ encode_all ss
      → NoneIsLast ss
      → c.user_data ≡ some h
      → c.max_count ≡ 0
      → Has host rel h.output bs
      → h.st ≡ default
      → h.queue ≡ []
      → IsPlain host rel h
      → h.utc_ts < 2 ^ 32
      → h.ts_offset < 60_000_000
      → h.last_ov_ts ≤ loop.pd.cumulative_ts
      → loop.pd.cumulative_ts + total_ticks ss < 2 ^ 63
      → Delivery.Leaves
          (FileHas (bs ++ joined (sent_records host (origin_of host h) loop.pd.cumulative_ts ss)))
          (frame_decoder_proc loop (framed cs))
  frame_decoder_proc-FileHas loop c h bs ss cs u o e m v k j cut ongoing user unlimited has s q
        plain sec clocks since small =
      let P =
        FileHas (bs ++ joined (sent_records host (origin_of host h) loop.pd.cumulative_ts ss)) in
      seen-Leaves P (frame_decoder_proc loop (framed cs)) (
        subst (FedHas P) (sym (frame_decoder_proc-encode_all loop ss cs e m v k j cut)) (
          subst P
            (sym
              (received_all-deliver_all loop.pd ss o ∙ ap (deliver_all (packets_of loop.pd ss)) u))
            (subst
              (λ rs.
                FileHas (bs ++ joined rs)
                  (deliver_all (packets_of loop.pd ss) (calling (handler_callback host) c)))
              (captures-sent host loop h ss sec clocks since small k)
              (delivered-FileHas (packets_of loop.pd ss) c h bs user unlimited
                (packets_of-AreOngoing loop.pd ss ongoing) has s q plain))))
