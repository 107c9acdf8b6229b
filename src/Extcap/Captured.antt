-- ===== src/Extcap/Captured.antt =====
-- The file that start_capture of tools/ovextcap/main.c writes.
use mathlib.Core.Path.{subst}
use libopenvizsla.Prelude.{
  ℕ, ◌+◌, ◌/◌, ◌≡◌, refl, sym, Bool, false, Option, none, some, List, ◌++◌, Bytes,
}
use libopenvizsla.Ftdi.{Ftdi}
use libopenvizsla.Decoder.State.{Packet, packet_decoder_init, frame_decoder_init}
use libopenvizsla.Bit.Parser.{Bit}
use libopenvizsla.Loop.State.{Loop}
use libopenvizsla.Loop.Run.{Returned, cha_loop_init}
use libopenvizsla.Loop.Limit.{fed}
use libopenvizsla.Loop.Handed.{RunsOn}
use libopenvizsla.Fwpkg.Zip.{Zip}
use libopenvizsla.Device.Open.{OvDevice, ov_new}
use libopenvizsla.Device.Api.{ov_open, ov_set_usb_speed}
use libopenvizsla.Device.Capture.{Capturing, attached, ov_capture_dispatch}
use libopenvizsla.Device.Capture as Device
use libopenvizsla.Extcap.Pcap.{Host}
use libopenvizsla.Extcap.Filter.{HandlerData}
use libopenvizsla.Extcap.Output.{Reliable, joined}
use libopenvizsla.Extcap.Stream.{Leaves}
use libopenvizsla.Extcap.Handler.{start_offset}
use libopenvizsla.Extcap.Callback.{handler_callback, clock_of}
use libopenvizsla.Extcap.Pipeline.{records}
use libopenvizsla.Extcap.Records.{Time, IsAt, records_from, captures-records}
use libopenvizsla.Extcap.Fed.{fed-Leaves}
use libopenvizsla.Extcap.Header.{pcap_header, write_pcap_header-Has}
use libopenvizsla.Extcap.Ready.{
  Writes, with_device-Writes, or_exit-Writes, finish-Writes, with_capture-Writes, start-StartsReady,
  capture_loop,
}
use libopenvizsla.Extcap.Capture.{
  Settings, Surroundings, new_data, after_dispatch, capture_to, start_capture,
}

-- The time of the realtime clock at the start: its nanoseconds in clocks, of 17 nanoseconds and of
-- 850 once more, at the value 0 of the device's counter.
abbrev pub opened_at : ℕ → ℕ → Time
opened_at tv_sec tv_nsec = record {
  sec = tv_sec;
  clocks = tv_nsec / 17 + tv_nsec / 850;
  counter = 0;
}

module _ (host : Host) (s : Settings host.File) (env : Surroundings host.File) (ps : List Packet)
    (bs : Bytes) where
  -- The bytes of the capture's file: the header, and a record for each packet that is not empty, by
  -- its own data and by the realtime clock.
  abbrev pub file_bytes : Bytes
  file_bytes =
      (bs ++ pcap_header host s.linktype)
      ++ joined (records_from host (opened_at env.tv_sec env.tv_nsec) ps)

module _ (host : Host) {content : host.File → Bytes} (rel : Reliable host content)
    (s : Settings host.File) (env : Surroundings host.File) (ps : List Packet) (bs : Bytes) where
  new_data-IsAt :
      (fifo : host.File)
      → IsAt host (opened_at env.tv_sec env.tv_nsec) (clock_of host (new_data host s env fifo))
  unfolding new_data start_offset
  new_data-IsAt fifo = (refl, refl, refl)

  new_data-Leaves :
      (fifo : host.File)
      → content fifo ≡ bs
      → s.filter_naks ≡ false
      → s.filter_sofs ≡ false
      → Leaves host rel
          ((bs ++ pcap_header host s.linktype)
            ++ joined (records host rel ps (clock_of host (new_data host s env fifo))))
          (fed (handler_callback host) ps (some (new_data host s env fifo)))
  unfolding new_data
  new_data-Leaves fifo has naks sofs =
      fed-Leaves host rel ps (new_data host s env fifo) (bs ++ pcap_header host s.linktype)
        (write_pcap_header-Has host rel s.linktype bs (some fifo) has) refl refl (naks, sofs)

  fed-file_bytes :
      (fifo : host.File)
      → content fifo ≡ bs
      → s.filter_naks ≡ false
      → s.filter_sofs ≡ false
      → Leaves host rel
          (file_bytes host s env ps bs)
          (fed (handler_callback host) ps (some (new_data host s env fifo)))
  fed-file_bytes fifo has naks sofs =
      subst
        (λ rs.
          Leaves host rel ((bs ++ pcap_header host s.linktype) ++ joined rs)
            (fed (handler_callback host) ps (some (new_data host s env fifo))))
        (captures-records host ps (opened_at env.tv_sec env.tv_nsec)
          (clock_of host (new_data host s env fifo)) (new_data-IsAt fifo))
        (new_data-Leaves fifo has naks sofs)

module _ (host : Host) {content : host.File → Bytes} (rel : Reliable host content) (usb : Ftdi)
    (lib : Zip) (rounds : ℕ) (malloc : ℕ → Bool) (s : Settings host.File)
    (env : Surroundings host.File) (ps : List Packet) (bs : Bytes) where
  dispatched-Writes :
      (fifo : host.File) (x : Loop (Option (HandlerData host.File)) × Returned)
      (ov : OvDevice usb lib)
      → Leaves host rel (file_bytes host s env ps bs) x.0.pd.user.user_data
      → Writes host rel {lib = lib}
          (file_bytes host s env ps bs)
          (after_dispatch host usb rounds malloc s env (Device.dispatched rounds x ov))
  dispatched-Writes fifo (loop, r) ov h =
      finish-Writes host rel usb (file_bytes host s env ps bs) rounds malloc s env r
        loop.pd.user.user_data _ h

  -- Each call of cha_loop_run that start_capture can make is a run on the packets `ps`.
  abbrev pub Dispatches : host.File → Loop (Option (HandlerData host.File)) → Type 0
  Dispatches fifo loop =
      (ov : OvDevice usb lib)
      → (let before = capture_loop host env loop (new_data host s env fifo) ov in
          RunsOn (handler_callback host) ps before (env.dispatch before))

  dispatch-Writes :
      (fifo : host.File) (loop : Loop (Option (HandlerData host.File)))
      (cap : Capturing usb lib (Option (HandlerData host.File)))
      → content fifo ≡ bs
      → Dispatches fifo loop
      → s.filter_naks ≡ false
      → s.filter_sofs ≡ false
      → attached cap.ov cap.loop ≡ capture_loop host env loop (new_data host s env fifo) cap.ov
      → Writes host rel {lib = lib} (file_bytes host s env ps bs) (
          after_dispatch host usb rounds malloc s env (ov_capture_dispatch rounds env.dispatch cap))
  unfolding ov_capture_dispatch cha_loop_init packet_decoder_init frame_decoder_init
  dispatch-Writes fifo loop cap has runs naks sofs ready =
      let d = new_data host s env fifo in
      let before = capture_loop host env loop d cap.ov in
      subst
        (λ l. Writes host rel {lib = lib} (file_bytes host s env ps bs) (
          after_dispatch host usb rounds malloc s env
            (Device.dispatched rounds (env.dispatch l) cap.ov)))
        (sym ready)
        (dispatched-Writes fifo (env.dispatch before) cap.ov (
          subst (Leaves host rel (file_bytes host s env ps bs)) (sym (runs cap.ov).made)
            (fed-file_bytes host rel s env ps bs fifo has naks sofs)))

  capture_to-Writes :
      (fifo : host.File) (loop : Loop (Option (HandlerData host.File))) (ov : OvDevice usb lib)
      → content fifo ≡ bs
      → Dispatches fifo loop
      → s.filter_naks ≡ false
      → s.filter_sofs ≡ false
      → Writes host rel {lib = lib}
          (file_bytes host s env ps bs)
          (capture_to host usb rounds malloc s env (some fifo) loop ov)
  capture_to-Writes fifo loop ov has runs naks sofs =
      let d = new_data host s env fifo in
      with_capture-Writes host rel usb (file_bytes host s env ps bs) rounds malloc s env loop d _ _
        _
        (start-StartsReady host rel usb (file_bytes host s env ps bs) rounds malloc s env loop d ov)
        (λ cap. refl) (λ cap ready. dispatch-Writes fifo loop cap has runs naks sofs ready)

  opened-Writes :
      (fifo : host.File) (o : Option host.File) (loop : Loop (Option (HandlerData host.File)))
      (ov : OvDevice usb lib)
      → o ≡ some fifo
      → Writes host rel {lib = lib}
          (file_bytes host s env ps bs)
          (capture_to host usb rounds malloc s env (some fifo) loop ov)
      → Writes host rel {lib = lib}
          (file_bytes host s env ps bs)
          (capture_to host usb rounds malloc s env o loop ov)
  opened-Writes fifo o loop ov e h =
      subst
        (λ p.
          Writes host rel {lib = lib} (file_bytes host s env ps bs)
            (capture_to host usb rounds malloc s env p loop ov))
        (sym e) h

  -- With both filters off, a fifo that does not break, and a call of cha_loop_run that returns, `ps`
  -- being the packets on which that run calls the tool's callback: if start_capture returns behind
  -- ov_capture_dispatch, then the fifo that it closed has, behind what was in it, the pcap header
  -- with the link type, and one record for each packet of `ps` whose size is not 0, in order, with
  -- its size and data, and the time that its timestamp is behind the realtime clock at the start,
  -- and nothing else.
  pub start_capture-Writes :
      (fifo : host.File) (bit : Bit) (loop : Loop (Option (HandlerData host.File)))
      (preload : Bytes) (w : lib.World)
      → env.fifo ≡ some fifo
      → content fifo ≡ bs
      → Dispatches fifo loop
      → s.filter_naks ≡ false
      → s.filter_sofs ≡ false
      → Writes host rel {lib = lib}
          (file_bytes host s env ps bs)
          (start_capture host usb rounds malloc s env bit loop preload w)
  unfolding start_capture
  start_capture-Writes fifo bit loop preload w e has runs naks sofs =
      with_device-Writes host rel usb (file_bytes host s env ps bs) (ov_new malloc preload none w) _
        (λ ov0.
          or_exit-Writes host rel usb (file_bytes host s env ps bs) (ov_open rounds malloc bit ov0)
            _
            (λ ov1.
              or_exit-Writes host rel usb (file_bytes host s env ps bs)
                (ov_set_usb_speed rounds malloc s.speed ov1) _
                (λ ov2.
                  opened-Writes fifo env.fifo loop ov2 e
                    (capture_to-Writes fifo loop ov2 has runs naks sofs))))
