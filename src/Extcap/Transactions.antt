-- ===== src/Extcap/Transactions.antt =====
-- Transactions that end in a NAK, in the filter of tools/ovextcap/main.c.
use libopenvizsla.Prelude.{◌<◌, ◌≡◌, ◌⊎◌, List, [], ◌∷◌, Option, some, none, true, arith}
use libopenvizsla.Extcap.Pcap.{Host, PcapPacket}
use libopenvizsla.Extcap.Filter.{
  default, HandlerData, filter_packet, filter_by_pid, pid, usb_pid_token_in, usb_pid_special_ping,
  usb_pid_token_out, usb_pid_data_data0, usb_pid_data_data1, usb_pid_handshake_nak, write_all,
}

-- IN or PING and NAK, or OUT, DATA0 or DATA1, and NAK, each with captured data.
abbrev pub IsNaked : List PcapPacket → Type 0
IsNaked (t ∷ n ∷ []) =
    (0 < t.incl_len)
    × (0 < n.incl_len)
    × ((pid t ≡ usb_pid_token_in) ⊎ (pid t ≡ usb_pid_special_ping))
    × (pid n ≡ usb_pid_handshake_nak)
IsNaked (t ∷ d ∷ n ∷ []) =
    (0 < t.incl_len)
    × (0 < d.incl_len)
    × (0 < n.incl_len)
    × (pid t ≡ usb_pid_token_out)
    × ((pid d ≡ usb_pid_data_data0) ⊎ (pid d ≡ usb_pid_data_data1))
    × (pid n ≡ usb_pid_handshake_nak)
IsNaked _ = ⊥

abbrev pub bind {ℓ} : {A B : Type ℓ} → Option A → (A → Option B) → Option B
bind none f = none
bind (some a) f = f a

module _ (host : Host) where
  open host use {File}

  -- The filter on one packet after another.
  abbrev pub filter_all : List PcapPacket → HandlerData File → Option (HandlerData File)
  filter_all [] h = some h
  filter_all (p ∷ ps) h = bind (filter_packet host p h) (filter_all ps)

  -- With NAK filtering on and no transaction under way, a whole NAKed IN, PING or OUT transaction
  -- leaves the handler as it was: nothing of it is written.
  pub filter_all-IsNaked :
      (ps : List PcapPacket) (h : HandlerData File)
      → IsNaked ps
      → h.st ≡ default
      → h.queue ≡ []
      → h.filter_naks ≡ true
      → filter_all ps h ≡ some h
  unfolding filter_packet filter_by_pid write_all
  filter_all-IsNaked (t ∷ n ∷ []) h k e q f = ground arith
  filter_all-IsNaked (t ∷ d ∷ n ∷ []) h k e q f = ground arith
  filter_all-IsNaked [] h k e q f = absurd k
  filter_all-IsNaked (a ∷ []) h k e q f = absurd k
  filter_all-IsNaked (a ∷ b ∷ c ∷ d ∷ r) h k e q f = absurd k
