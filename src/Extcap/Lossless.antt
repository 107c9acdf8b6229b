-- ===== src/Extcap/Lossless.antt =====
-- What the filter of tools/ovextcap/main.c writes, as a part of what it gets.
use mathlib.Core.List.{Sublist, nil-sublist}
use mathlib.Core.List.Sublist as Sub
use libopenvizsla.Prelude.{
  ℕ, ◌<◌, ◌≡◌, refl, sym, ap, ◌∙◌, Bool, true, false, not, Bool-cases, inl, inr, Option, none, some,
  List, [], ◌∷◌, ◌++◌, append-nil, append_assoc, Bytes, arith, if◌then◌else◌, ◌==◌, ◌&&◌, ◌||◌,
}
use mathlib.Core.Path.{subst}
use libopenvizsla.Extcap.Pcap.{Host, PcapPacket, pcap_record}
use libopenvizsla.Extcap.Filter.{
  FilterState, default, split, out, expect_nak, is_default, is_split, is_out, is_expect_nak, enter,
  HandlerData, filter_by_pid, forward_packet, forward_queued_packets, discard_packet,
  discard_queued_packets, queue_packet, free_queued_packets, usb_pid_token_sof,
  usb_pid_special_split, usb_pid_token_out, usb_pid_token_in, usb_pid_special_ping,
  usb_pid_data_data0, usb_pid_data_data1, usb_pid_handshake_nak,
}
use libopenvizsla.Extcap.Queue.{IsQueued}
use libopenvizsla.Extcap.Output.{
  Reliable, Has, joined, joined-append, write_packet-Has, write_all-Has,
}

either {ℓ} :
    {A : Type 0} (P : A → Type ℓ) (b : Bool) {x y : A}
    → (b ≡ true → P x)
    → (b ≡ false → P y)
    → P (if b then x else y)
either P true f g = f refl
either P false f g = g refl

-- No record waits.
default_empty : (s : FilterState) (q : List Bytes) → IsQueued s q → is_default s ≡ true → q ≡ []
default_empty default q h e = h
default_empty split q h e = h
default_empty out q h e = absurd (cc)
default_empty expect_nak q h e = absurd (cc)

split_empty : (s : FilterState) (q : List Bytes) → IsQueued s q → is_split s ≡ true → q ≡ []
split_empty default q h e = h
split_empty split q h e = h
split_empty out q h e = absurd (cc)
split_empty expect_nak q h e = absurd (cc)

module _ (host : Host) {content : host.File → Bytes} (rel : Reliable host content) where
  open host use {File}

  -- Neither filter is on.
  abbrev pub IsPlain : HandlerData File → Type 0
  IsPlain h = (h.filter_naks ≡ false) × (h.filter_sofs ≡ false)

  -- From `h` and the file contents `bs` to `h'`: the records `es` were written, and they and those
  -- that still wait are among the records `rs`, in their order; all of them if no filter is on.
  pub record Writes (h : HandlerData File) (bs : Bytes) (rs : List Bytes) (h' : HandlerData File)
      : Type 0 where
    pub es : List Bytes
    pub has : Has host rel h'.output (bs ++ joined es)
    pub among : Sublist (es ++ h'.queue) rs
    pub whole : IsPlain h → es ++ h'.queue ≡ rs
    pub naks : h'.filter_naks ≡ h.filter_naks
    pub sofs : h'.filter_sofs ≡ h.filter_sofs

  module _ (packet : PcapPacket) (h : HandlerData File) (bs : Bytes)
      (has : Has host rel h.output bs) where
    -- The records that waited, and the packet's own.
    abbrev pub waiting : List Bytes
    waiting = h.queue ++ (pcap_record host packet ∷ [])

    abbrev pub W : HandlerData File → Type 0
    W = Writes h bs waiting

    -- Everything was written or waits.
    all_of :
        (h' : HandlerData File) (es : List Bytes)
        → Has host rel h'.output (bs ++ joined es)
        → es ++ h'.queue ≡ waiting
        → h'.filter_naks ≡ h.filter_naks
        → h'.filter_sofs ≡ h.filter_sofs
        → W h'
    all_of h' es k e n s = record {
      es = es;
      has = k;
      among = subst (Sublist (es ++ h'.queue)) e (Sub.refl _);
      whole = λ plain. e;
      naks = n;
      sofs = s;
    }

    -- Nothing was written, and nothing waits.
    none_of :
        (h' : HandlerData File)
        → h'.output ≡ h.output
        → h'.queue ≡ []
        → ¬ IsPlain h
        → h'.filter_naks ≡ h.filter_naks
        → h'.filter_sofs ≡ h.filter_sofs
        → W h'
    none_of h' o q filters n s = record {
      es = [];
      has = rw (o, append-nil bs) has;
      among = rw q (nil-sublist waiting);
      whole = λ plain. absurd (filters plain);
      naks = n;
      sofs = s;
    }

    forwarded : (s : FilterState) → h.queue ≡ [] → W (enter host s (forward_packet host packet h))
    unfolding forward_packet
    forwarded s q =
        all_of _ (pcap_record host packet ∷ [])
          (rw (append-nil (pcap_record host packet))
            (write_packet-Has host rel packet bs h.output has))
          (rw q refl) refl refl

    all_forwarded :
        (s : FilterState)
        → W (enter host s (forward_packet host packet (forward_queued_packets host h)))
    unfolding forward_packet forward_queued_packets
    all_forwarded s =
        all_of _ waiting
          (subst (Has host rel _)
            (append_assoc bs (joined h.queue) (pcap_record host packet)
              ∙ ap (λ t. bs ++ t)
                  (rw
                    (
                      joined-append h.queue (pcap_record host packet ∷ []),
                      append-nil (pcap_record host packet),
                    )
                    refl))
            (write_packet-Has host rel packet _ _ (write_all-Has host rel h.queue bs h.output has)))
          (append-nil waiting) refl refl

    queued_alone :
        (s : FilterState)
        → W (enter host s (queue_packet host packet (forward_queued_packets host h)))
    unfolding queue_packet forward_queued_packets
    queued_alone s =
        all_of _ h.queue (write_all-Has host rel h.queue bs h.output has) refl refl refl

    queued : (s : FilterState) → W (enter host s (queue_packet host packet h))
    unfolding queue_packet
    queued s = all_of _ [] (rw (append-nil bs) has) refl refl refl

    discard_on :
        h.filter_naks ≡ true
        → discard_packet host packet (discard_queued_packets host h) ≡ free_queued_packets host h
    unfolding discard_packet discard_queued_packets
    discard_on e = ground arith

    discard_off :
        h.filter_naks ≡ false
        → discard_packet host packet (discard_queued_packets host h)
          ≡ forward_packet host packet (forward_queued_packets host h)
    unfolding discard_packet discard_queued_packets forward_queued_packets
    discard_off e = ground arith

    discarded :
        (s : FilterState)
        → W (enter host s (discard_packet host packet (discard_queued_packets host h)))
    discarded s = elim (Bool-cases (h.filter_naks)) [
      | inl on ↦
          subst (λ x. W (enter host s x)) (sym (discard_on on))
            (none_of (enter host s (free_queued_packets host h)) refl refl (λ plain. cc (plain.0))
              refl refl)
      | inr off ↦ subst (λ x. W (enter host s x)) (sym (discard_off off)) (all_forwarded s)
    ]

    -- The branches of the filter, in its order.
    pub filter_by_pid-Writes : (p : ℕ) → IsQueued h.st h.queue → W (filter_by_pid host p packet h)
    unfolding filter_by_pid
    filter_by_pid-Writes p q =
        either W (p == usb_pid_token_sof)
          (λ _.
            either W (is_default h.st)
              (λ idle.
                either W (not h.filter_sofs)
                  (λ _. forwarded h.st (default_empty h.st h.queue q idle))
                  (λ on.
                    none_of h refl (default_empty h.st h.queue q idle) (λ plain. cc (plain.1)) refl
                      refl))
              (λ _. all_forwarded default))
          (λ _.
            either W (p == usb_pid_special_split) (λ _. all_forwarded split)
              (λ _.
                either W (is_split h.st)
                  (λ idle. forwarded default (split_empty h.st h.queue q idle))
                  (λ _.
                    either W (p == usb_pid_token_out) (λ _. queued_alone out)
                      (λ _.
                        either W
                          (is_out h.st && (p == usb_pid_data_data0 || p == usb_pid_data_data1))
                          (λ _. queued expect_nak)
                          (λ _.
                            either W (p == usb_pid_token_in || p == usb_pid_special_ping)
                              (λ _. queued_alone expect_nak)
                              (λ _.
                                either W (is_expect_nak h.st && p == usb_pid_handshake_nak)
                                  (λ _. discarded default) (λ _. all_forwarded default)))))))

  -- Every packet has captured data.
  abbrev pub AreCaptured : List PcapPacket → Type 0
  AreCaptured [] = Unit
  AreCaptured (p ∷ ps) = (0 < p.incl_len) × AreCaptured ps

  -- No assertion failed, and the records were written.
  abbrev pub WritesSome : HandlerData File → Bytes → List Bytes → Option (HandlerData File) → Type 0
  WritesSome h bs rs none = ⊥
  WritesSome h bs rs (some h') = Writes h bs rs h'

  pub append-Writes :
      (h h1 h2 : HandlerData File) (bs : Bytes) (rs ss : List Bytes) (w : Writes h bs rs h1)
      → Writes h1 (bs ++ joined w.es) (h1.queue ++ ss) h2
      → Writes h bs (rs ++ ss) h2
  append-Writes h h1 h2 bs rs ss w v =
      let regrouped = append_assoc w.es v.es h2.queue in
      record {
        es = w.es ++ v.es;
        has =
            subst (Has host rel h2.output)
              (append_assoc bs (joined w.es) (joined v.es)
                ∙ ap (λ t. bs ++ t) (sym (joined-append w.es v.es)))
              v.has;
        among =
            subst (λ t. Sublist t (rs ++ ss)) (sym regrouped)
              (Sub.trans (Sub.append (Sub.refl w.es) v.among) (
                subst (λ t. Sublist t (rs ++ ss)) (append_assoc w.es h1.queue ss)
                  (Sub.append w.among (Sub.refl ss))));
        whole = λ plain.
            regrouped
            ∙ ap (λ t. w.es ++ t) (v.whole (w.naks ∙ plain.0, w.sofs ∙ plain.1))
            ∙ sym (append_assoc w.es h1.queue ss)
            ∙ ap (λ t. t ++ ss) (w.whole plain);
        naks = v.naks ∙ w.naks;
        sofs = v.sofs ∙ w.sofs;
      }
