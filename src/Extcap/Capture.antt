-- ===== src/Extcap/Capture.antt =====
-- start_capture of tools/ovextcap/main.c.
use libopenvizsla.Prelude.{ℕ, ◌%◌, ◌^◌, Bool, Option, none, some, [], Bytes}
use libopenvizsla.Ftdi.{Ftdi}
use libopenvizsla.Decoder.State.{Packet}
use libopenvizsla.Cha.Ulpi.{UsbSpeed}
use libopenvizsla.Bit.Parser.{Bit}
use libopenvizsla.Loop.State.{Loop}
use libopenvizsla.Loop.Run.{Returned}
use libopenvizsla.Fwpkg.Zip.{Zip}
use libopenvizsla.Device.Open.{OvDevice, ov_new}
use libopenvizsla.Device.Api.{ov_open, ov_set_usb_speed}
use libopenvizsla.Device.Capture.{Capturing, ov_capture_start, ov_capture_dispatch, ov_capture_stop}
use libopenvizsla.Tools.Exit.{
  Exit, stops, exit_freed, with_device, or_exit, with_capture, stop_and_exit,
}
use libopenvizsla.Extcap.Pcap.{Host, write_pcap_header}
use libopenvizsla.Extcap.Filter.{default, HandlerData, discard_queued_packets}
use libopenvizsla.Extcap.Handler.{start_offset}
use libopenvizsla.Extcap.Callback.{handler_callback}

-- The value that is returned: 1, or what ov_capture_dispatch returned.
pub data Status : Type 0 where
  failure : Status
  dispatched : Returned → Status

-- How the capture ended, with the files that it closed, as they were then; a file that is not open
-- is none.
pub record End (File : Type 0) : Type 0 where
  pub status : Status
  pub closed : Option File
  pub closed_debug : Option File

-- The arguments of start_capture, but for the name of the fifo.
pub record Settings (File : Type 0) : Type 0 where
  pub speed : UsbSpeed
  pub linktype : ℕ
  pub filter_naks : Bool
  pub filter_sofs : Bool
  pub debug_pcap : Option File

-- What start_capture gets of its host: the fifo that fopen opens, the realtime clock, the object on
-- the stack for a packet, and the runs of the capture loop that ov_capture_dispatch and
-- ov_capture_stop make.
pub record Surroundings (File : Type 0) : Type 0 where
  pub fifo : Option File
  pub tv_sec : ℕ
  pub tv_nsec : ℕ
  pub packet : Packet
  pub dispatch : Loop (Option (HandlerData File)) → Loop (Option (HandlerData File)) × Returned
  pub stop : Loop (Option (HandlerData File)) → Loop (Option (HandlerData File)) × Returned

module _ (host : Host) where
  open host use {File}

  -- `data`, with the headers written.
  unfoldable pub new_data : Settings File → Surroundings File → File → HandlerData File
  new_data s env fifo = record {
    output = write_pcap_header host s.linktype (some fifo);
    debug = write_pcap_header host s.linktype s.debug_pcap;
    utc_ts = env.tv_sec % 2 ^ 32;
    ts_offset = start_offset env.tv_nsec;
    last_ov_ts = 0;
    filter_naks = s.filter_naks;
    filter_sofs = s.filter_sofs;
    st = default;
    queue = [];
  }

  abbrev pub failed : End File
  failed = record { status = failure; closed = none; closed_debug = none }

  abbrev pub finished : Returned → HandlerData File → End File
  finished r data0 =
      let data1 = discard_queued_packets host data0 in
      record { status = dispatched r; closed = data1.output; closed_debug = data1.debug }

  module _ (usb : Ftdi) {lib : Zip} (rounds : ℕ) (malloc : ℕ → Bool) (s : Settings File)
      (env : Surroundings File) where
    -- Behind ov_capture_dispatch. The callback's assertions did not hold when it left no data.
    abbrev pub finish :
        Returned
        → Option (HandlerData File)
        → Capturing usb lib (Option (HandlerData File))
        → Exit lib (End File)
    finish r none cap = stops
    finish r (some data0) cap =
        stop_and_exit (finished r data0) (ov_capture_stop rounds env.stop none cap)

    abbrev pub after_dispatch :
        Returned × Capturing usb lib (Option (HandlerData File)) → Exit lib (End File)
    after_dispatch (r, cap) = finish r cap.loop.pd.user.user_data cap

    abbrev pub capture_to :
        Option File → Loop (Option (HandlerData File)) → OvDevice usb lib → Exit lib (End File)
    capture_to none loop ov = exit_freed failed ov
    capture_to (some fifo) loop ov =
        let data0 = new_data s env fifo in
        with_capture
          (λ cap. record { status = failure; closed = data0.output; closed_debug = data0.debug })
          (ov_capture_start rounds env.packet 1024 (some (handler_callback host)) (some data0)
            (record { ov = ov; loop = loop }))
          (λ cap. after_dispatch (ov_capture_dispatch rounds env.dispatch cap))

    -- `loop` is the device's loop before it is initialised, and `preload` the package in the library.
    unfoldable pub start_capture :
        Bit → Loop (Option (HandlerData File)) → Bytes → lib.World → Exit lib (End File)
    start_capture bit loop preload w =
        with_device failed (ov_new {usb = usb} malloc preload none w) (λ ov0.
          or_exit failed (ov_open rounds malloc bit ov0) (λ ov1.
            or_exit failed (ov_set_usb_speed rounds malloc s.speed ov1) (capture_to env.fifo loop)))
