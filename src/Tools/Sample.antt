-- ===== src/Tools/Sample.antt =====
-- tools/sample/main.c: the program that prints a hundred packets.
use libopenvizsla.Prelude.{
  ℕ, Bool, false, if◌then◌else◌, some, List, [], ◌∷◌, ◌++◌, Bytes, take, none,
}
use libopenvizsla.Ftdi.{Ftdi}
use libopenvizsla.Decoder.State.{Packet, captured_size}
use libopenvizsla.Cha.Ulpi.{low_speed}
use libopenvizsla.Bit.Parser.{Bit}
use libopenvizsla.Loop.State.{Loop}
use libopenvizsla.Loop.Run.{Returned}
use libopenvizsla.Fwpkg.Zip.{Zip}
use libopenvizsla.Device.Open.{ov_new}
use libopenvizsla.Device.Api.{ov_open, ov_set_usb_speed}
use libopenvizsla.Device.Capture.{
  Capturing, is_minus_one, ov_capture_start, ov_capture_dispatch, ov_capture_stop,
}
use libopenvizsla.Tools.Exit.{Exit, with_device, or_exit, with_capture, stop_and_exit}

-- What a call of the callback prints.
pub record Line : Type 0 where
  pub flags : ℕ
  pub size : ℕ
  pub timestamp : ℕ
  pub bytes : Bytes

-- The state of the callback is what has been printed; its `data` is a null pointer.
abbrev pub Output : Type 0
Output = List Line

unfoldable pub print_packet : Packet → Output → Output × Bool
print_packet packet output = (
  output
      ++ (record {
        flags = packet.flags;
        size = packet.size;
        timestamp = packet.timestamp;
        bytes = take (captured_size packet) packet.bytes;
      }
          ∷ []),
  false,
)

-- The calls of cha_loop_run, as ov_capture_dispatch and ov_capture_stop make them.
pub record Runs : Type 0 where
  pub dispatch : Loop Output → Loop Output × Returned
  pub stop : Loop Output → Loop Output × Returned

module _ (usb : Ftdi) {lib : Zip} (rounds : ℕ) (malloc : ℕ → Bool) (runs : Runs) where
  -- Behind ov_capture_dispatch: the capture is stopped either way.
  abbrev pub sampled : Returned × Capturing usb lib Output → Exit lib ℕ
  sampled (r, cap) =
      stop_and_exit (if is_minus_one r then 1 else 0)
        (ov_capture_stop rounds runs.stop cap.loop.pd.user.user_data cap)

  -- `loop` is the device's loop before it is initialised, and `packet` the object on the stack.
  unfoldable pub sample_main : Bit → Loop Output → Packet → Bytes → lib.World → Exit lib ℕ
  sample_main bit loop packet preload w = with_device 1 (ov_new malloc preload none w) (λ ov0.
      or_exit 1 (ov_open rounds malloc bit ov0) (λ ov1.
        or_exit 1 (ov_set_usb_speed rounds malloc low_speed ov1) (λ ov2.
          with_capture (λ cap. 1)
            (ov_capture_start rounds packet 1024 (some print_packet) []
              (record { ov = ov2; loop = loop }))
            (λ cap. sampled (ov_capture_dispatch rounds runs.dispatch cap)))))
