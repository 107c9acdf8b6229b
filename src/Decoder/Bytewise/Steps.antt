-- ===== src/Decoder/Bytewise/Steps.antt =====
-- One step of `packet_decoder_proc` against the reference: how many bytes it takes, and that they
-- lead to the same state.
use libopenvizsla.Prelude.{
  ℕ, zero, suc, ◌≤◌, ◌<◌, ◌≡◌, refl, ap, ◌∙◌, false, true, Option, none, some, ◌∷◌, Bytes, length,
  take, drop, length-take, take-append-drop, arith, memcpy, min,
}
use mathlib.Core.Path.{subst}
use libopenvizsla.Decoder.State.{
  PacketDecoder, PacketState, need_packet_data, out_of_bounds, Step, advance, finished, refused,
  broken,
}
use libopenvizsla.Decoder.Packet.{stored, packet_step_in, packet_step, required_length}
use libopenvizsla.Decoder.Valid.{IsValid}
use libopenvizsla.Decoder.Bytewise.{
  ok, rejected, stuck, ◌>>=◌, feeds, is_pending, flush, packet_feed,
}
use libopenvizsla.Decoder.Bytewise.Packets.{feeds-append, landed, required_length_lem, data_feeds}

module _ {U : Type 0} where
  -- How many bytes of a buffer of `n` bytes the step takes.
  abbrev pub width_in : PacketState → PacketDecoder U → ℕ → ℕ
  width_in need_packet_data pd n = min (required_length pd) n
  width_in _ pd n = 1

  -- `n` bytes of `buf` lead from `pd` to what the step leaves; a refusal or a fault is one of the
  -- reference too.
  abbrev pub Takes : ℕ → PacketDecoder U → Bytes → Step (PacketDecoder U) → Type 0
  Takes n pd buf (advance pd' rest) =
      (feeds packet_feed pd (take n buf) ≡ ok pd') × (rest ≡ drop n buf)
  Takes n pd buf (finished pd' rest) =
      (feeds packet_feed pd (take n buf) ≡ ok pd') × (rest ≡ drop n buf)
  Takes n pd buf (refused pd') = feeds packet_feed pd buf ≡ rejected pd'
  Takes n pd buf (broken w) = feeds packet_feed pd buf ≡ stuck w

  stored-Takes :
      (pd : PacketDecoder U) (n : ℕ) (buf : Bytes) (o : Option Bytes)
      → feeds packet_feed pd (take n buf) ≡ landed pd n o
      → Takes n pd buf (stored pd n buf o)
  unfolding stored
  stored-Takes pd n buf none f =
      subst (λ t. feeds packet_feed pd t ≡ stuck out_of_bounds) (take-append-drop n buf)
        (feeds-append packet_feed pd (take n buf) (drop n buf)
          ∙ ap (λ m. m >>= λ t. feeds packet_feed t (drop n buf)) f)
  stored-Takes pd n buf (some m) f = ground arith

  data_prefix :
      (pd : PacketDecoder U) (b : ℕ) (bs : Bytes) (n : ℕ)
      → pd.state ≡ need_packet_data
      → IsValid pd
      → 0 < n
      → n ≤ required_length pd
      → n ≤ length (b ∷ bs)
      → feeds packet_feed pd (take n (b ∷ bs))
        ≡ landed pd n (memcpy pd.packet.bytes pd.buf_actual_length (take n (b ∷ bs)))
  data_prefix pd b bs zero e v h k l = absurd (omega arith)
  data_prefix pd b bs (suc n) e v h k l =
      let len : length (take n bs) ≡ n = omega (arith, length-take n bs) in
      data_feeds pd b (take n bs) e v (omega arith)
      ∙ ap (λ t. landed pd (suc t) (memcpy pd.packet.bytes pd.buf_actual_length (b ∷ take n bs)))
          len

  required_length-pos :
      (pd : PacketDecoder U)
      → pd.state ≡ need_packet_data
      → is_pending pd ≡ false
      → IsValid pd
      → 0 < required_length pd
  required_length-pos pd e p v = ground (arith, required_length_lem pd e v)

  step_in-Takes :
      (s : PacketState) (pd : PacketDecoder U) (b : ℕ) (bs : Bytes)
      → pd.state ≡ s
      → is_pending pd ≡ false
      → IsValid pd
      → Takes (width_in s pd (length (b ∷ bs))) pd (b ∷ bs) (packet_step_in s pd b bs)
  unfolding packet_step_in packet_feed
  step_in-Takes need_packet_data pd b bs e p v =
      stored-Takes pd (min (required_length pd) (length (b ∷ bs))) (b ∷ bs) _ (
        data_prefix pd b bs (min (required_length pd) (length (b ∷ bs))) e v
          (omega (arith, required_length-pos pd e p v)) (omega arith) (omega arith))
  step_in-Takes _ pd b bs e p v = ground arith

  pub packet_step-Takes :
      (pd : PacketDecoder U) (b : ℕ) (bs : Bytes)
      → is_pending pd ≡ false
      → IsValid pd
      → Takes (width_in pd.state pd (length (b ∷ bs))) pd (b ∷ bs) (packet_step pd b bs)
  packet_step-Takes pd b bs p v = step_in-Takes pd.state pd b bs refl p v

  width_in_bounds :
      (s : PacketState) (pd : PacketDecoder U) (n : ℕ)
      → pd.state ≡ s
      → is_pending pd ≡ false
      → IsValid pd
      → 0 < n
      → (0 < width_in s pd n) × (width_in s pd n ≤ n)
  width_in_bounds need_packet_data pd n e p v h = omega (arith, required_length-pos pd e p v)
  width_in_bounds _ pd n e p v h = omega arith

  -- A step that waits for no byte takes one at least.
  pub width_bounds :
      (pd : PacketDecoder U) (n : ℕ)
      → is_pending pd ≡ false
      → IsValid pd
      → 0 < n
      → (0 < width_in pd.state pd n) × (width_in pd.state pd n ≤ n)
  width_bounds pd n = width_in_bounds pd.state pd n refl

  -- The step finalizes the packet and takes no byte.
  abbrev pub LeavesFlushed : PacketDecoder U → Bytes → Step (PacketDecoder U) → Type 0
  LeavesFlushed pd buf st = st ≡ finished (flush pd) buf

  step_in_pending :
      (s : PacketState) (pd : PacketDecoder U) (b : ℕ) (bs : Bytes)
      → pd.state ≡ s
      → is_pending pd ≡ true
      → IsValid pd
      → LeavesFlushed pd (b ∷ bs) (packet_step_in s pd b bs)
  unfolding packet_step_in memcpy
  step_in_pending need_packet_data pd b bs e p v = ground (arith, required_length_lem pd e v)
  step_in_pending _ pd b bs e p v = ground arith

  pub packet_step_pending :
      (pd : PacketDecoder U) (b : ℕ) (bs : Bytes)
      → is_pending pd ≡ true
      → IsValid pd
      → packet_step pd b bs ≡ finished (flush pd) (b ∷ bs)
  packet_step_pending pd b bs p v = step_in_pending pd.state pd b bs refl p v
