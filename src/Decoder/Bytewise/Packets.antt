-- ===== src/Decoder/Bytewise/Packets.antt =====
-- One step of `packet_decoder_proc` takes the bytes that it consumes as the reference does.
use libopenvizsla.Prelude.{
  ℕ, suc, ◌+◌, ◌-◌, ◌%◌, ◌^◌, ◌≤◌, ◌<◌, ◌≡◌, refl, sym, ap, ◌∙◌, false, ◌==◌, if◌then◌else◌, Option,
  none, some, [], ◌∷◌, ◌++◌, Bytes, length, take-length_le, arith, memcpy,
}
use mathlib.Core.Path.{fun_ext}
use libopenvizsla.Decoder.State.{captured_size, PacketDecoder, need_packet_data, out_of_bounds}
use libopenvizsla.Decoder.Packet.{finalize, packet_step_in, required_length}
use libopenvizsla.Decoder.Valid.{IsValid}
use libopenvizsla.Decoder.Bytewise.{Fed, ok, rejected, stuck, ◌>>=◌, feeds, settle, packet_feed}
use libopenvizsla.Decoder.Bytewise.Memory.{bind, memcpy-cons}

pub >>=-assoc :
    {S T V R : Type 0} (m : Fed S R) (f : S → Fed T R) (g : T → Fed V R)
    → (m >>= f >>= g) ≡ (m >>= λ s. f s >>= g)
>>=-assoc (ok s) f g = refl
>>=-assoc (rejected r) f g = refl
>>=-assoc (stuck w) f g = refl

pub feeds-append :
    {S R : Type 0} (feed : S → ℕ → Fed S R) (s : S) (xs ys : Bytes)
    → feeds feed s (xs ++ ys) ≡ (feeds feed s xs >>= λ t. feeds feed t ys)
feeds-append feed s [] ys = refl
feeds-append feed s (x ∷ xs) ys =
    ap (λ f. feed s x >>= f) (fun_ext λ t. feeds-append feed t xs ys)
    ∙ sym (>>=-assoc (feed s x) (λ t. feeds feed t xs) (λ t. feeds feed t ys))

module _ {U : Type 0} where
  pub required_length_lem :
      (pd : PacketDecoder U)
      → pd.state ≡ need_packet_data
      → IsValid pd
      → required_length pd ≡ captured_size pd.packet - pd.buf_actual_length
  unfolding captured_size
  required_length_lem pd e v = ground arith

  -- The decoder once `n` bytes more are in the packet, which holds `m`.
  abbrev pub filled : PacketDecoder U → ℕ → Bytes → PacketDecoder U
  filled pd n m = record pd {
    packet = record (pd.packet) { bytes = m };
    buf_actual_length = (pd.buf_actual_length + n) % 2 ^ 64;
  }

  abbrev pub arrived : PacketDecoder U → ℕ → Bytes → PacketDecoder U
  arrived pd n m = if required_length pd == n then finalize (filled pd n m) else filled pd n m

  abbrev pub landed : PacketDecoder U → ℕ → Option Bytes → Fed (PacketDecoder U) (PacketDecoder U)
  landed pd n none = stuck out_of_bounds
  landed pd n (some m) = ok (arrived pd n m)

  settle-landed :
      (pd : PacketDecoder U) (b : ℕ) (bs : Bytes)
      → length (b ∷ bs) ≤ required_length pd
      → settle (λ s. s) (packet_step_in need_packet_data pd b bs)
        ≡ landed pd (length (b ∷ bs)) (memcpy pd.packet.bytes pd.buf_actual_length (b ∷ bs))
  unfolding packet_step_in
  settle-landed pd b bs h = ground (arith, take-length_le (length (b ∷ bs)) (b ∷ bs))

  packet_feed-landed :
      (pd : PacketDecoder U) (b : ℕ)
      → pd.state ≡ need_packet_data
      → IsValid pd
      → 0 < required_length pd
      → packet_feed pd b ≡ landed pd 1 (memcpy pd.packet.bytes pd.buf_actual_length (b ∷ []))
  unfolding packet_feed packet_step_in
  packet_feed-landed pd b e v h = ground (arith, required_length_lem pd e v)

  filled-IsValid :
      (pd : PacketDecoder U) (m : Bytes)
      → pd.state ≡ need_packet_data
      → IsValid pd
      → 1 < required_length pd
      → IsValid (filled pd 1 m)
  unfolding captured_size
  filled-IsValid pd m e v h = ground (arith, required_length_lem pd e v)

  required_length-filled :
      (pd : PacketDecoder U) (m : Bytes)
      → pd.state ≡ need_packet_data
      → IsValid pd
      → 0 < required_length pd
      → (required_length (filled pd 1 m) + 1 ≡ required_length pd)
        × ((pd.buf_actual_length + 1) % 2 ^ 64 ≡ pd.buf_actual_length + 1)
  unfolding captured_size
  required_length-filled pd m e v h = ground (arith, required_length_lem pd e v)

  -- A decoder with one byte more needs one byte less.
  landed-filled :
      (pd : PacketDecoder U) (m : Bytes) (n : ℕ) (o : Option Bytes)
      → pd.state ≡ need_packet_data
      → IsValid pd
      → suc n ≤ required_length pd
      → landed (filled pd 1 m) n o ≡ landed pd (suc n) o
  unfolding captured_size
  landed-filled pd m n none e v h = refl
  landed-filled pd m n (some m') e v h = ground (arith, required_length_lem pd e v)

  landed-one :
      (pd : PacketDecoder U) (c : ℕ) (cs : Bytes) (o : Option Bytes)
      → pd.state ≡ need_packet_data
      → IsValid pd
      → suc (length (c ∷ cs)) ≤ required_length pd
      → ((m : Bytes)
          → feeds packet_feed (filled pd 1 m) (c ∷ cs)
            ≡ landed
                (filled pd 1 m)
                (length (c ∷ cs))
                (memcpy m (pd.buf_actual_length + 1) (c ∷ cs)))
      → (landed pd 1 o >>= λ t. feeds packet_feed t (c ∷ cs))
        ≡ landed pd
            (suc (length (c ∷ cs)))
            (bind o (λ m. memcpy m (pd.buf_actual_length + 1) (c ∷ cs)))
  landed-one pd c cs none e v h ih = refl
  landed-one pd c cs (some m) e v h ih =
      let more : (required_length pd == 1) ≡ false = ground arith in
      rw more (
        ih m
        ∙ landed-filled pd m (length (c ∷ cs)) (memcpy m (pd.buf_actual_length + 1) (c ∷ cs)) e v h)

  -- Bytes that do not go beyond the packet are copied one by one.
  pub data_feeds :
      (pd : PacketDecoder U) (b : ℕ) (bs : Bytes)
      → pd.state ≡ need_packet_data
      → IsValid pd
      → length (b ∷ bs) ≤ required_length pd
      → feeds packet_feed pd (b ∷ bs)
        ≡ landed pd (length (b ∷ bs)) (memcpy pd.packet.bytes pd.buf_actual_length (b ∷ bs))
  data_feeds pd b [] e v h = ground (arith, packet_feed-landed pd b)
  data_feeds pd b (c ∷ cs) e v h =
      ap (λ r. r >>= λ t. feeds packet_feed t (c ∷ cs)) (packet_feed-landed pd b e v (omega arith))
      ∙ landed-one pd c cs _ e v h (λ m.
        data_feeds (filled pd 1 m) c cs e (filled-IsValid pd m e v (omega arith))
          (omega (arith, required_length-filled pd m e v (omega arith)))
        ∙ ap (λ k. landed (filled pd 1 m) (length (c ∷ cs)) (memcpy m k (c ∷ cs)))
            (required_length-filled pd m e v (omega arith)).1)
      ∙ ap (landed pd (length (b ∷ c ∷ cs)))
          (sym (memcpy-cons pd.packet.bytes pd.buf_actual_length b (c ∷ cs)))
