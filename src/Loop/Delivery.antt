-- ===== src/Loop/Delivery.antt =====
-- How many of the packets on the wire reach the program: the decoder of src/decoder.c under the
-- callbacks of src/cha.c.
use mathlib.Core.Path.{subst}
use libopenvizsla.Prelude.{
  ◌<◌, ◌≡◌, refl, sym, ap, ◌∙◌, Bool, false, List, [], ◌∷◌, Bytes, length, ◌^◌, ◌-◌,
}
use libopenvizsla.Decoder.State.{
  Packet, Ops, has_flag, ov_flags_hf0_last, PacketDecoder, need_packet_magic, need_frame_magic,
  Outcome, done, failed, fault,
}
use libopenvizsla.Decoder.Packet.{call_packet}
use libopenvizsla.Decoder.Frame.{frame_decoder_proc}
use libopenvizsla.Decoder.Valid.{FrameIsValid}
use libopenvizsla.Decoder.Bytewise.{Fed, ok, rejected, stuck, ◌>>=◌}
use libopenvizsla.Decoder.Chunks.{seen}
use libopenvizsla.Decoder.Wire.{Sent}
use libopenvizsla.Decoder.Wire.Receive.{received}
use libopenvizsla.Decoder.Wire.Stream.{
  framed, joined, AreFrames, AreSent, encode_all, received_all, frame_decoder_proc-encode_all,
}
use libopenvizsla.Loop.State.{Control, Loop}
use libopenvizsla.Loop.Callbacks.{loop_ops}
use libopenvizsla.Loop.Limit.{
  AreOngoing, NeverBreaks, calling, deliver_all, IsLimited, deliver_all-limit,
}

-- No packet that is sent is marked as the last of the stream.
abbrev pub NoneIsLast : List Sent → Type 0
NoneIsLast [] = Unit
NoneIsLast (s ∷ ss) = (has_flag s.flags ov_flags_hf0_last ≡ false) × NoneIsLast ss

module _ {V : Type 0} where
  -- The packets that the decoder delivers.
  abbrev pub packets_of : PacketDecoder (Control V) → List Sent → List Packet
  packets_of pd [] = []
  packets_of pd (s ∷ ss) = (received pd s).packet ∷ packets_of (received pd s) ss

  pub packets_of-AreOngoing :
      (pd : PacketDecoder (Control V)) (ss : List Sent)
      → NoneIsLast ss
      → AreOngoing (packets_of pd ss)
  packets_of-AreOngoing pd [] h = tt
  packets_of-AreOngoing pd (s ∷ ss) h = (h.0, packets_of-AreOngoing (received pd s) ss h.1)

  pub received_all-deliver_all :
      (pd : PacketDecoder (Control V)) (ss : List Sent)
      → pd.ops ≡ loop_ops
      → (received_all pd ss).user ≡ deliver_all (packets_of pd ss) pd.user
  unfolding deliver_all
  received_all-deliver_all pd [] e = refl
  received_all-deliver_all pd (s ∷ ss) e =
      received_all-deliver_all (received pd s) ss e
      ∙ ap
          (λ (o : Ops (Control V)).
            deliver_all (packets_of (received pd s) ss)
              (call_packet o.packet (received pd s).packet pd.user))
          e

  -- The call returns, and the loop behind `user_data` has the property.
  abbrev pub Leaves : (Control V → Type 0) → Outcome (Loop V) → Type 0
  Leaves P (done n loop) = P loop.pd.user
  Leaves P (failed loop) = ⊥
  Leaves P (fault w) = ⊥

  abbrev pub FedHas :
      (Control V → Type 0) → Fed (PacketDecoder (Control V)) (PacketDecoder (Control V)) → Type 0
  FedHas P (ok pd) = P pd.user
  FedHas P (rejected pd) = ⊥
  FedHas P (stuck w) = ⊥

  pub seen-Leaves :
      (P : Control V → Type 0) (o : Outcome (Loop V))
      → FedHas P (seen o >>= λ loop. ok loop.pd)
      → Leaves P o
  seen-Leaves P (done n loop) h = h
  seen-Leaves P (failed loop) h = h
  seen-Leaves P (fault w) h = h

  -- Packets with data, none of them marked as the last, that reach a running loop with a limit of
  -- `max_count`, less than INT_MAX, in one call of the decoder, cut into SDRAM frames at any places: the program's
  -- callback, which does not break off, gets the first `max_count + 1` of them, in order, and no
  -- other.
  pub frame_decoder_proc-limit :
      (f : Packet → V → V × Bool) (c : Control V) (loop : Loop V) (ss : List Sent) (cs : List Bytes)
      → loop.pd.user ≡ calling f c
      → loop.pd.ops ≡ loop_ops
      → loop.state ≡ need_frame_magic
      → loop.pd.state ≡ need_packet_magic
      → FrameIsValid loop
      → AreSent (length loop.pd.packet.bytes) ss
      → AreFrames cs
      → joined cs ≡ encode_all ss
      → NeverBreaks f
      → NoneIsLast ss
      → 0 < c.max_count
      → c.max_count < 2 ^ 31 - 1
      → c.count ≡ 0
      → Leaves
          (IsLimited f (packets_of loop.pd ss) c.user_data c.max_count)
          (frame_decoder_proc loop (framed cs))
  frame_decoder_proc-limit f c loop ss cs u o e m v h k j quiet ongoing pos small zero' =
      let limited = IsLimited f (packets_of loop.pd ss) c.user_data c.max_count in
      seen-Leaves limited (frame_decoder_proc loop (framed cs)) (
        subst (FedHas limited) (sym (frame_decoder_proc-encode_all loop ss cs e m v h k j)) (
          subst limited
            (sym
              (received_all-deliver_all loop.pd ss o ∙ ap (deliver_all (packets_of loop.pd ss)) u))
            (deliver_all-limit f (packets_of loop.pd ss) c quiet
              (packets_of-AreOngoing loop.pd ss ongoing) pos small zero')))
