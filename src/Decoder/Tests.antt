-- ===== src/Decoder/Tests.antt =====
-- The inputs of test/decoder.c, and the witnesses of the decoder's theorems.
use libopenvizsla.Prelude.{
  ℕ, ◌≡◌, refl, some, List, [], ◌∷◌, Bytes, take, replicate, length-replicate, length, sym, ◌++◌,
  ◌≤◌, arith, memcpy, ◌<◌,
}
use native.Mathlib.Nat.{le_of_eq}
use libopenvizsla.Decoder.State.{
  Packet, captured_size, Ops, PacketDecoder, FrameDecoder, need_frame_magic, Outcome, done, failed,
  fault, packet_decoder_init, frame_decoder_init, need_packet_magic,
}
use libopenvizsla.Decoder.Valid.{IsValid, FrameIsValid}
use libopenvizsla.Decoder.Bytewise.{ok, ◌>>=◌, feeds, frame_feed, packet_feed}
use libopenvizsla.Decoder.Chunks.{seen, frame_decoder_proc-feeds, frame_decoder_proc-append}
use libopenvizsla.Decoder.Safety.{HasRoom, IsSafe, room_needed, frame_decoder_proc-IsSafe}
use libopenvizsla.Decoder.Users.{KeepUser}
use libopenvizsla.Decoder.Wire.{Sent, IsSent}
use libopenvizsla.Decoder.Wire.Stream.{
  framed, joined, AreSent, received_all, frame_decoder_proc-framed, frame_decoder_proc-encode_all,
}
use libopenvizsla.Decoder.Packet.{packet_decoder_proc, packet_loop, packet_step_in}
use libopenvizsla.Decoder.Frame.{frame_decoder_proc, frame_loop, frame_step_in}

-- The object behind `user_data`: what was delivered, the newest first.
abbrev Log : Type 0
Log = List (ℕ × ℕ × ℕ × Bytes)

abbrev logging : Ops Log
logging = record {
  packet = some (λ p log. (p.magic, p.size, p.timestamp, take (captured_size p) p.bytes) ∷ log);
  bus_frame = some (λ addr value log. (0x55, addr, value, []) ∷ log);
}

abbrev blank : ℕ → Packet
blank n = record { magic = 0; flags = 0; size = 0; timestamp = 0; bytes = replicate n 0 }

abbrev pd : PacketDecoder Log
pd = packet_decoder_init (blank 8) 20 logging []

abbrev fd : FrameDecoder Log
fd =
    frame_decoder_init
      (record { pd = pd; state = need_frame_magic; word = 0; value = 0; checksum = 0 }) (blank 8) 20
      logging []

abbrev log_of : Outcome (PacketDecoder Log) → ℕ × Log
log_of (done n s) = (n, s.user)
log_of (failed s) = (0, s.user)
log_of (fault w) = (0, [])

abbrev frame_log_of : Outcome (FrameDecoder Log) → ℕ × Log
frame_log_of (done n s) = (n, s.pd.user)
frame_log_of (failed s) = (0, s.pd.user)
frame_log_of (fault w) = (0, [])

packet_decoder1 :
    log_of (
      packet_decoder_proc pd (
        0xa0 ∷ 0 ∷ 0x01 ∷ 0xe0 ∷ 0xc4 ∷ 0xcc ∷ 0x96 ∷ 0xa0 ∷ 0xe0 ∷ 0x00 ∷ 0x00 ∷ 0x01 ∷ 0x5a ∷ []))
    ≡ (13, (0xa0, 1, 0x010000e0a096ccc4, 0x5a ∷ []) ∷ [])
unfolding packet_decoder_proc packet_loop packet_step_in captured_size memcpy packet_decoder_init
packet_decoder1 = refl

packet_decoder2 :
    log_of (packet_decoder_proc pd (0xa0 ∷ 0 ∷ 0x01 ∷ 0 ∷ 0xc4 ∷ 0x5a ∷ 0xa0 ∷ []))
    ≡ (6, (0xa0, 1, 0xc4, 0x5a ∷ []) ∷ [])
unfolding packet_decoder_proc packet_loop packet_step_in captured_size memcpy packet_decoder_init
packet_decoder2 = refl

-- A bus frame, and an SDRAM frame of two packets.
abbrev frame_bytes : Bytes
frame_bytes =
    0x55 ∷ 0x8c ∷ 0x28 ∷ 0x00 ∷ 0x09 ∷ 0xd0 ∷ 0x08 ∷ 0xa0 ∷ 0x00 ∷ 0x03 ∷ 0x00 ∷ 0xba ∷ 0xd7 ∷ 0x69
    ∷ 0x60 ∷ 0xa0 ∷ 0x00 ∷ 0x03 ∷ 0x40 ∷ 0xac ∷ 0x6c ∷ 0xa5 ∷ 0x69 ∷ 0x83 ∷ 0xe0 ∷ []

frame_decoder3 : frame_log_of (frame_decoder_proc fd frame_bytes) ≡ (
  25,
  (0xa0, 3, 0xa56d66, 0x69 ∷ 0x83 ∷ 0xe0 ∷ [])
      ∷ (0xa0, 3, 0xba, 0xd7 ∷ 0x69 ∷ 0x60 ∷ [])
      ∷ (0x55, 0x8c28, 0, [])
      ∷ [],
)
unfolding frame_decoder_proc frame_loop frame_step_in packet_decoder_proc packet_loop packet_step_in
    captured_size memcpy packet_decoder_init frame_decoder_init
frame_decoder3 = refl

fd-FrameIsValid : FrameIsValid fd
unfolding packet_decoder_init frame_decoder_init
fd-FrameIsValid = ground arith

pd-IsValid : IsValid pd
unfolding packet_decoder_init
pd-IsValid = ground arith

-- The first half of a packet's header, and the second.
abbrev first_half : Bytes
first_half = 0xd0 ∷ 0x03 ∷ 0xa0 ∷ 0x00 ∷ []

abbrev second_half : Bytes
second_half = 0x03 ∷ 0x00 ∷ 0xba ∷ 0xd7 ∷ 0x69 ∷ 0x60 ∷ []

frame_decoder_proc-append_example :
    seen (frame_decoder_proc fd (first_half ++ second_half))
    ≡ (seen (frame_decoder_proc fd first_half) >>= λ fd'. seen (frame_decoder_proc fd' second_half))
frame_decoder_proc-append_example =
    frame_decoder_proc-append fd first_half second_half fd-FrameIsValid (omega arith) (omega arith)

frame_decoder_proc-feeds_example :
    seen (frame_decoder_proc fd first_half) ≡ feeds frame_feed fd first_half
frame_decoder_proc-feeds_example =
    frame_decoder_proc-feeds fd first_half fd-FrameIsValid (omega arith)

-- A packet of three bytes, 0xba clocks behind the one before.
abbrev sent : Sent
sent = record {
  magic = 0xa0;
  flags = 0;
  size = 3;
  ts_length = 1;
  ticks = 0xba;
  payload = 0xd7 ∷ 0x69 ∷ 0x60 ∷ [];
}

sent-IsSent : IsSent sent
sent-IsSent = ground arith

state-pd : pd.state ≡ need_packet_magic
unfolding packet_decoder_init
state-pd = refl

room-pd : 3 ≤ length pd.packet.bytes
unfolding packet_decoder_init
room-pd = omega arith

-- The packet in two frames.
abbrev frames : List Bytes
frames = (0xa0 ∷ 0x00 ∷ []) ∷ (0x03 ∷ 0x00 ∷ 0xba ∷ 0xd7 ∷ 0x69 ∷ 0x60 ∷ []) ∷ []

state-fd : (fd.state ≡ need_frame_magic) × (fd.pd.state ≡ need_packet_magic)
unfolding packet_decoder_init frame_decoder_init
state-fd = (refl, refl)

room-fd : AreSent (length fd.pd.packet.bytes) (sent ∷ [])
unfolding packet_decoder_init frame_decoder_init
room-fd = (sent-IsSent, omega arith, tt)

frame_decoder_proc-framed_example :
    (seen (frame_decoder_proc fd (framed frames)) >>= λ fd'. ok fd'.pd)
    ≡ feeds packet_feed fd.pd (joined frames)
frame_decoder_proc-framed_example =
    frame_decoder_proc-framed fd frames state-fd.0 fd-FrameIsValid (omega arith)

frame_decoder_proc-encode_all_example :
    (seen (frame_decoder_proc fd (framed frames)) >>= λ fd'. ok fd'.pd)
    ≡ ok (received_all fd.pd (sent ∷ []))
frame_decoder_proc-encode_all_example =
    frame_decoder_proc-encode_all fd (sent ∷ []) frames state-fd.0 state-fd.1 fd-FrameIsValid
      room-fd (omega arith) refl

-- An object with room for every packet.
roomy : Bytes
roomy = replicate room_needed 0

length-roomy : room_needed ≤ length roomy
unfolding roomy
length-roomy = le_of_eq (sym (length-replicate {A = ℕ} room_needed 0))

abbrev safe_fd : FrameDecoder Log
safe_fd = record {
  pd =
      packet_decoder_init (record { magic = 0; flags = 0; size = 0; timestamp = 0; bytes = roomy })
        8203 logging [];
  state = need_frame_magic;
  word = 0;
  value = 0;
  checksum = 0;
}

safe_fd-FrameIsValid : FrameIsValid safe_fd
unfolding packet_decoder_init
safe_fd-FrameIsValid = ground arith

safe_fd-HasRoom : HasRoom safe_fd.pd
unfolding packet_decoder_init
safe_fd-HasRoom = record {
  valid = safe_fd-FrameIsValid.packet_valid;
  sized = tt;
  room = length-roomy;
}

frame_decoder_proc-IsSafe_example : IsSafe (frame_decoder_proc safe_fd first_half)
frame_decoder_proc-IsSafe_example =
    frame_decoder_proc-IsSafe safe_fd first_half safe_fd-FrameIsValid safe_fd-HasRoom (omega arith)

-- The log is not empty.
abbrev IsLogged : Log → Type 0
IsLogged log = 0 < length log

logging-IsLogged : KeepUser logging IsLogged
logging-IsLogged = record {
  packet_keeps = λ p log h. omega arith;
  bus_keeps = λ a v log h. omega arith;
}

abbrev used_fd : FrameDecoder Log
used_fd = record fd { pd = packet_decoder_init (blank 8) 20 logging ((0x55, 1, 2, []) ∷ []) }

used_fd-IsLogged : (used_fd.pd.ops ≡ logging) × IsLogged used_fd.pd.user
unfolding packet_decoder_init
used_fd-IsLogged = (refl, omega arith)
