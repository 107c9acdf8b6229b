-- ===== src/Extcap/Header.antt =====
-- The header that write_pcap_header of tools/ovextcap/main.c writes.
use mathlib.Core.Path.{subst}
use libopenvizsla.Prelude.{ℕ, ◌≡◌, refl, Option, [], ◌∷◌, ◌++◌, Bytes, append_assoc, append-nil}
use libopenvizsla.Extcap.Pcap.{Host, write_pcap_header}
use libopenvizsla.Extcap.Output.{Reliable, Has, joined, write_data-Has, flush_data-Has}

module _ (host : Host) where
  -- The global header of a pcap file with nanoseconds, version 2.4.
  abbrev pub pcap_header : ℕ → Bytes
  pcap_header linktype = joined (
      host.uint32_bytes 0xa1b2_3c4d
      ∷ host.uint16_bytes 2
      ∷ host.uint16_bytes 4
      ∷ host.uint32_bytes 0
      ∷ host.uint32_bytes 0
      ∷ host.uint32_bytes 65535
      ∷ host.uint32_bytes linktype
      ∷ [])

module _ (host : Host) {content : host.File → Bytes} (rel : Reliable host content) where
  regroup :
      (bs a b c d e f g : Bytes)
      → ((((((bs ++ a) ++ b) ++ c) ++ d) ++ e) ++ f) ++ g
        ≡ bs ++ joined (a ∷ b ∷ c ∷ d ∷ e ∷ f ∷ g ∷ [])
  regroup bs a b c d e f g = simp (append_assoc, append-nil) refl

  pub write_pcap_header-Has :
      (linktype : ℕ) (bs : Bytes) (o : Option host.File)
      → Has host rel o bs
      → Has host rel (write_pcap_header host linktype o) (bs ++ pcap_header host linktype)
  unfolding write_pcap_header
  write_pcap_header-Has linktype bs o h =
      let o1 = write_data-Has host rel (host.uint32_bytes 0xa1b2_3c4d) bs o h in
      let o2 = write_data-Has host rel (host.uint16_bytes 2) _ _ o1 in
      let o3 = write_data-Has host rel (host.uint16_bytes 4) _ _ o2 in
      let o4 = write_data-Has host rel (host.uint32_bytes 0) _ _ o3 in
      let o5 = write_data-Has host rel (host.uint32_bytes 0) _ _ o4 in
      let o6 = write_data-Has host rel (host.uint32_bytes 65535) _ _ o5 in
      let o7 = write_data-Has host rel (host.uint32_bytes linktype) _ _ o6 in
      subst (Has host rel _)
        (regroup bs (host.uint32_bytes 0xa1b2_3c4d) (host.uint16_bytes 2) (host.uint16_bytes 4)
          (host.uint32_bytes 0) (host.uint32_bytes 0) (host.uint32_bytes 65535)
          (host.uint32_bytes linktype))
        (flush_data-Has host rel _ _ o7)
