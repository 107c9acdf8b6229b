-- ===== src/Extcap/Output.antt =====
-- What the writers of tools/ovextcap/main.c put into a file that does not break.
use libopenvizsla.Prelude.{
  ◌≡◌, refl, sym, ap, ◌∙◌, true, Option, none, some, List, [], ◌∷◌, ◌++◌, append-nil, append_assoc,
  Bytes, take,
}
use mathlib.Core.Path.{subst}
use libopenvizsla.Extcap.Pcap.{Host, PcapPacket, write_data, flush_data, write_packet, pcap_record}
use libopenvizsla.Extcap.Filter.{write_all}

-- A host on which every write succeeds: `content` is what was written to a file.
pub record Reliable (host : Host) (content : host.File → Bytes) : Type 0 where
  pub fwrite_lem :
      (bytes : Bytes) (f : host.File)
      → ((host.fwrite bytes f).0 ≡ true) × (content (host.fwrite bytes f).1 ≡ content f ++ bytes)
  pub fflush_lem :
      (f : host.File) → ((host.fflush f).0 ≡ true) × (content (host.fflush f).1 ≡ content f)

-- The records one behind another.
abbrev pub joined : List Bytes → Bytes
joined [] = []
joined (r ∷ rs) = r ++ joined rs

pub joined-append : (rs ss : List Bytes) → joined (rs ++ ss) ≡ joined rs ++ joined ss
joined-append [] ss = refl
joined-append (r ∷ rs) ss =
    ap (λ t. r ++ t) (joined-append rs ss) ∙ sym (append_assoc r (joined rs) (joined ss))

regroup :
    (bs a b c d e : Bytes)
    → ((((bs ++ a) ++ b) ++ c) ++ d) ++ e ≡ bs ++ (a ++ (b ++ (c ++ (d ++ e))))
regroup bs a b c d e = simp append_assoc refl

module _ (host : Host) {content : host.File → Bytes} (rel : Reliable host content) where
  -- The file is open, and this was written to it.
  abbrev pub Has : Option host.File → Bytes → Type 0
  Has none bs = ⊥
  Has (some f) bs = content f ≡ bs

  pub write_data-Has :
      (bytes bs : Bytes) (o : Option host.File)
      → Has o bs
      → Has (write_data host bytes o) (bs ++ bytes)
  unfolding write_data
  write_data-Has bytes bs none h = h
  write_data-Has bytes bs (some f) h =
      let r = rel.fwrite_lem bytes f in rw (r.0) (r.1 ∙ ap (λ t. t ++ bytes) h)

  pub flush_data-Has : (bs : Bytes) (o : Option host.File) → Has o bs → Has (flush_data host o) bs
  unfolding flush_data
  flush_data-Has bs none h = h
  flush_data-Has bs (some f) h = let r = rel.fflush_lem f in rw (r.0) (r.1 ∙ h)

  pub write_packet-Has :
      (p : PcapPacket) (bs : Bytes) (o : Option host.File)
      → Has o bs
      → Has (write_packet host p o) (bs ++ pcap_record host p)
  unfolding write_packet
  write_packet-Has p bs o h =
      let u = host.uint32_bytes in
      let captured = take p.incl_len p.captured in
      let o1 = write_data-Has (u p.ts_sec) bs o h in
      let o2 = write_data-Has (u p.ts_nsec) _ _ o1 in
      let o3 = write_data-Has (u p.incl_len) _ _ o2 in
      let o4 = write_data-Has (u p.orig_len) _ _ o3 in
      subst (Has _) (regroup bs (u p.ts_sec) (u p.ts_nsec) (u p.incl_len) (u p.orig_len) captured)
        (flush_data-Has _ _ (write_data-Has captured _ _ o4))

  pub write_all-Has :
      (q : List Bytes) (bs : Bytes) (o : Option host.File)
      → Has o bs
      → Has (write_all host q o) (bs ++ joined q)
  unfolding write_all
  write_all-Has [] bs o h = rw (append-nil bs) h
  write_all-Has (r ∷ q) bs o h =
      rw (sym (append_assoc bs r (joined q)))
        (write_all-Has q (bs ++ r) _ (flush_data-Has _ _ (write_data-Has r bs o h)))
