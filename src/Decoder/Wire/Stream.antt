-- ===== src/Decoder/Wire/Stream.antt =====
-- A stream of packets that is cut into SDRAM frames, anywhere, and read by `frame_decoder_proc`.
use libopenvizsla.Prelude.{
  ℕ, suc, ◌+◌, ◌-◌, ◌*◌, ◌/◌, ◌%◌, ◌≤◌, ◌<◌, ◌≡◌, inl, inr, refl, sym, ap, ◌∙◌, List, [], ◌∷◌, ◌++◌,
  Bytes, length, arith, AreBytes, append-AreBytes, take-length_le, length-drop, append-nil,
}
use mathlib.Core.Path.{subst, fun_ext}
use libopenvizsla.Decoder.State.{
  PacketDecoder, FrameDecoder, need_packet_magic, need_frame_magic, need_sdram_frame_data,
}
use libopenvizsla.Decoder.Packet.{packet_loop}
use libopenvizsla.Decoder.Frame.{frame_step_in, frame_decoder_proc}
use libopenvizsla.Decoder.Valid.{IsValid, FrameIsValid}
use libopenvizsla.Decoder.Bytewise.{Fed, ok, rejected, stuck, ◌>>=◌, feeds, packet_feed, frame_feed}
use libopenvizsla.Decoder.Bytewise.Memory.{length-overlay_at}
use libopenvizsla.Decoder.Bytewise.Packets.{feeds-append}
use libopenvizsla.Decoder.Bytewise.Loops.{Reads, LoopReads, packet_loop-LoopReads}
use libopenvizsla.Decoder.Bytewise.Frames.{within, sdram_feeds}
use libopenvizsla.Decoder.Chunks.{seen, frame_decoder_proc-feeds}
use libopenvizsla.Decoder.Wire.{Sent, IsSent, encode}
use libopenvizsla.Decoder.Wire.Stamp.{more}
use libopenvizsla.Decoder.Wire.Receive.{received, encode_loop, more-add, length-encode}

-- One SDRAM frame: 0xd0, half the number of data bytes less one, the data.
abbrev pub frame : Bytes → Bytes
frame c = 0xd0 ∷ (length c / 2 - 1) ∷ c

abbrev pub IsFrame : Bytes → Type 0
IsFrame c = (length c % 2 ≡ 0) × (2 ≤ length c) × (length c ≤ 512)

abbrev pub framed : List Bytes → Bytes
framed [] = []
framed (c ∷ cs) = frame c ++ framed cs

abbrev pub joined : List Bytes → Bytes
joined [] = []
joined (c ∷ cs) = c ++ joined cs

abbrev pub AreFrames : List Bytes → Type 0
AreFrames [] = Unit
AreFrames (c ∷ cs) = IsFrame c × AreBytes c × AreFrames cs

framed-AreBytes : (cs : List Bytes) → AreFrames cs → AreBytes (framed cs)
framed-AreBytes [] h = tt
framed-AreBytes (c ∷ cs) h =
    (omega arith, (omega arith, append-AreBytes c (framed cs) h.1 (framed-AreBytes cs h.2)))

module _ {U : Type 0} where
  -- A frame decoder between two frames, with another packet decoder.
  abbrev at : FrameDecoder U → PacketDecoder U → FrameDecoder U
  at fd pd = record fd { pd = pd; word = 0; state = need_frame_magic }

  header_feeds :
      (fd : FrameDecoder U) (n : ℕ) (xs : Bytes)
      → fd.state ≡ need_frame_magic
      → n < 256
      → feeds frame_feed fd (0xd0 ∷ n ∷ xs)
        ≡ feeds frame_feed (record fd { word = (n + 1) * 2; state = need_sdram_frame_data }) xs
  unfolding frame_feed frame_step_in
  header_feeds fd n xs e h = ground arith

  behind_frame :
      (fd : FrameDecoder U) (c : Bytes) (pd : PacketDecoder U)
      → IsFrame c
      → within
          (record fd { word = (length c / 2 - 1 + 1) * 2; state = need_sdram_frame_data })
          (length c)
          pd
        ≡ at fd pd
  behind_frame fd c pd h =
      let e : (length c / 2 - 1 + 1) * 2 - length c ≡ 0 = omega arith in ground arith

  feeds-frame :
      (fd : FrameDecoder U) (c : Bytes)
      → fd.state ≡ need_frame_magic
      → IsFrame c
      → feeds frame_feed fd (frame c) ≡ (feeds packet_feed fd.pd c >>= λ pd. ok (at fd pd))
  feeds-frame fd c e h =
      let inside = record fd { word = (length c / 2 - 1 + 1) * 2; state = need_sdram_frame_data } in
      header_feeds fd (length c / 2 - 1) c e (omega arith)
      ∙ sdram_feeds inside c refl (omega arith) (omega arith)
      ∙ ap (λ f. feeds packet_feed fd.pd c >>= f) (fun_ext λ pd. ap ok (behind_frame fd c pd h))

  frame-then :
      (fd : FrameDecoder U) (cs : List Bytes) (m : Fed (PacketDecoder U) (PacketDecoder U))
      → ((pd : PacketDecoder U)
          → (feeds frame_feed (at fd pd) (framed cs) >>= λ fd'. ok fd'.pd)
            ≡ feeds packet_feed pd (joined cs))
      → (m >>= (λ pd. ok (at fd pd)) >>= (λ t. feeds frame_feed t (framed cs)) >>= λ fd'. ok fd'.pd)
        ≡ (m >>= λ pd. feeds packet_feed pd (joined cs))
  frame-then fd cs (ok pd) ih = ih pd
  frame-then fd cs (rejected pd) ih = refl
  frame-then fd cs (stuck w) ih = refl

  feeds-framed :
      (fd : FrameDecoder U) (cs : List Bytes)
      → fd.state ≡ need_frame_magic
      → AreFrames cs
      → (feeds frame_feed fd (framed cs) >>= λ fd'. ok fd'.pd) ≡ feeds packet_feed fd.pd (joined cs)
  feeds-framed fd [] e h = refl
  feeds-framed fd (c ∷ cs) e h =
      ap (λ m. m >>= λ fd'. ok fd'.pd)
        (feeds-append frame_feed fd (frame c) (framed cs)
          ∙ ap (λ m. m >>= λ t. feeds frame_feed t (framed cs)) (feeds-frame fd c e h.0))
      ∙ frame-then fd cs (feeds packet_feed fd.pd c) (λ pd. feeds-framed (at fd pd) cs refl h.2)
      ∙ sym (feeds-append packet_feed fd.pd c (joined cs))

  -- From a valid decoder between two frames, `frame_decoder_proc` brings its packet decoder where
  -- the data of the frames bring it with no frames around them: packets may lie across frames.
  pub frame_decoder_proc-framed :
      (fd : FrameDecoder U) (cs : List Bytes)
      → fd.state ≡ need_frame_magic
      → FrameIsValid fd
      → AreFrames cs
      → (seen (frame_decoder_proc fd (framed cs)) >>= λ fd'. ok fd'.pd)
        ≡ feeds packet_feed fd.pd (joined cs)
  frame_decoder_proc-framed fd cs e v h =
      ap (λ m. m >>= λ fd'. ok fd'.pd)
        (frame_decoder_proc-feeds fd (framed cs) v (framed-AreBytes cs h))
      ∙ feeds-framed fd cs e h

abbrev pub encode_all : List Sent → Bytes
encode_all [] = []
encode_all (s ∷ ss) = encode s ++ encode_all ss

-- Every packet can be sent, and fits an object with room for `n` bytes of data.
abbrev pub AreSent : ℕ → List Sent → Type 0
AreSent n [] = Unit
AreSent n (s ∷ ss) = IsSent s × (length s.payload ≤ n) × AreSent n ss

module _ {U : Type 0} where
  abbrev pub received_all : PacketDecoder U → List Sent → PacketDecoder U
  received_all pd [] = pd
  received_all pd (s ∷ ss) = received_all (received pd s) ss

  Reads-whole :
      (pd pd' : PacketDecoder U) (buf : Bytes)
      → Reads pd buf pd' []
      → feeds packet_feed pd buf ≡ ok pd'
  Reads-whole pd pd' buf r =
      let all : length buf ≤ r.used = omega (arith, ap length r.rest_is, length-drop r.used buf) in
      ap (feeds packet_feed pd) (sym (take-length_le r.used buf all))
      ∙ r.fed
      ∙ ap ok (elim r.ends [ inl e ↦ sym e | inr (e, h) ↦ absurd (omega arith) ])

  feeds-encode :
      (pd : PacketDecoder U) (s : Sent)
      → pd.state ≡ need_packet_magic
      → IsValid pd
      → IsSent s
      → length s.payload ≤ length pd.packet.bytes
      → feeds packet_feed pd (encode s) ≡ ok (received pd s)
  feeds-encode pd s m v h l =
      let n = s.ts_length - 1 in
      let fuel = more 4 (more (suc n) (suc (length s.payload))) in
      let enough : length (encode s) ≤ fuel = omega (
        arith,
        h.ts_some,
        more-add (suc n) (suc (length s.payload)),
        length-encode s [],
        ap length (append-nil (encode s)),
      ) in
      let ends =
        ap (packet_loop fuel pd) (sym (append-nil (encode s)))
        ∙ encode_loop n (length s.payload) pd s [] (omega (arith, h.ts_some)) m v h l in
      Reads-whole pd (received pd s) (encode s)
        (subst (LoopReads pd (encode s)) ends (packet_loop-LoopReads fuel pd (encode s) v enough))

  received-IsValid :
      (pd : PacketDecoder U) (s : Sent) → IsValid pd → IsSent s → IsValid (received pd s)
  received-IsValid pd s v h = ground (arith, v, h)

  feeds-encode_all :
      (pd : PacketDecoder U) (ss : List Sent)
      → pd.state ≡ need_packet_magic
      → IsValid pd
      → AreSent (length pd.packet.bytes) ss
      → feeds packet_feed pd (encode_all ss) ≡ ok (received_all pd ss)
  feeds-encode_all pd [] m v h = refl
  feeds-encode_all pd (s ∷ ss) m v h =
      feeds-append packet_feed pd (encode s) (encode_all ss)
      ∙ ap (λ t. t >>= λ q. feeds packet_feed q (encode_all ss)) (feeds-encode pd s m v h.0 h.1)
      ∙ feeds-encode_all (received pd s) ss refl (received-IsValid pd s v h.0)
          (subst (λ n. AreSent n ss) (sym (length-overlay_at pd.packet.bytes 0 s.payload)) h.2)

  -- Packets with data, sent one behind another and cut into SDRAM frames at any places, are all
  -- delivered, in order, by one call of `frame_decoder_proc`; at the end it waits for a packet.
  pub frame_decoder_proc-encode_all :
      (fd : FrameDecoder U) (ss : List Sent) (cs : List Bytes)
      → fd.state ≡ need_frame_magic
      → fd.pd.state ≡ need_packet_magic
      → FrameIsValid fd
      → AreSent (length fd.pd.packet.bytes) ss
      → AreFrames cs
      → joined cs ≡ encode_all ss
      → (seen (frame_decoder_proc fd (framed cs)) >>= λ fd'. ok fd'.pd) ≡ ok (received_all fd.pd ss)
  frame_decoder_proc-encode_all fd ss cs e m v h k j =
      frame_decoder_proc-framed fd cs e v k
      ∙ ap (feeds packet_feed fd.pd) j
      ∙ feeds-encode_all fd.pd ss m v.packet_valid h
