-- ===== src/Device/Tests.antt =====
-- A device that is made, loaded, stopped and freed on concrete libraries.
use libopenvizsla.Prelude.{
  ℕ, suc, ◌-◌, ◌==◌, ◌≡◌, refl, true, if◌then◌else◌, none, some, [], ◌∷◌, ◌++◌, Bytes, List, length,
  take, arith, same_bytes, Ret, ok, failed, waiting,
}
use libopenvizsla.Reg.State.{Reg, RegName}
use libopenvizsla.Reg.Text.{codes}
use libopenvizsla.Reg.Map.{reg_names, reg_text}
use libopenvizsla.Ftdi.Steady.{Line, steady}
use libopenvizsla.Bit.Parser.{Bit}
use libopenvizsla.Bit.Format.{BitFile, encode}
use libopenvizsla.Bit.Recording.{steady_recorder}
use libopenvizsla.Decoder.State.{need_frame_magic, packet_decoder_init}
use libopenvizsla.Cha.State.{Cha}
use libopenvizsla.Loop.State.{count_limit, break_loop, Loop}
use libopenvizsla.Loop.Callbacks.{loop_ops}
use libopenvizsla.Loop.Run.{Returned, ended}
use libopenvizsla.Loop.Ran.{submitted, broken_off, broken_off-Ran}
use libopenvizsla.Fwpkg.Zip.{Zip}
use libopenvizsla.Fwpkg.Archives.{Counts}
use libopenvizsla.Fwpkg.Kept.{Reads}
use libopenvizsla.Device.Open.{OvDevice, ov_new}
use libopenvizsla.Device.Firmware.{ov_load_firmware_from_fwpkg}
use libopenvizsla.Device.Api.{ov_load_firmware}
use libopenvizsla.Device.Ledger.{LeavesNone, ov_new-LeavesNone}
use libopenvizsla.Device.Reload.{Reloads, ov_load_firmware-Reloads}
use libopenvizsla.Device.Sound.{IsDefined, ov_load_firmware_from_fwpkg-IsDefined}
use libopenvizsla.Device.Capture.{Capturing, ov_capture_stop}
use libopenvizsla.Device.Stopping.{Ends, Runs, ov_capture_stop-Ends}

-- Every archive has two files; the world is the number of open archives.
abbrev files : (ℕ → Bytes) → Zip
files text = record {
  World = ℕ;
  Archive = Unit {0};
  File = Bytes;
  Source = Unit {0};
  open_file = λ name w. (some tt, suc w);
  open_error = λ w. "Can't open file";
  source_buffer_create = λ buf w. (some tt, w);
  open_from_source = λ src w. (some tt, suc w);
  discard = λ pkg w. w - 1;
  name_locate =
      λ pkg name w. (some (if same_bytes (codes name) (codes "map.txt") then 0 else 1), w);
  stat_index = λ pkg i w. (some (some (length (text i))), w);
  fopen_index = λ pkg i w. (some (text i), w);
  fread = λ file n w. (some (take n file), w);
  fclose = λ file w. w;
  strerror = λ pkg w. "Unknown error";
}

-- Each register at address 0x10.
abbrev map_lines : List RegName → Bytes
map_lines [] = codes "# end"
map_lines (name ∷ names) = reg_text name ++ (codes " = 0x10" ++ (10 ∷ map_lines names))

abbrev small_file : BitFile
small_file = record {
  ncd_filename = 111 ∷ 118 ∷ 0 ∷ [];
  part_name = 54 ∷ 0 ∷ [];
  date = 50 ∷ 0 ∷ [];
  time = 49 ∷ 0 ∷ [];
  bits = 0xff ∷ 0xaa ∷ 0x99 ∷ 0x55 ∷ [];
}

abbrev text_at : ℕ → Bytes
text_at i = if i == 0 then map_lines reg_names else encode small_file []

abbrev pub firmware : Zip
firmware = files text_at

pub firmware-Counts : Counts firmware (λ w. w)
firmware-Counts = record {
  opening = λ name w. refl;
  sourcing = λ src w. refl;
  buffering = λ buf w. refl;
  locating = λ pkg name w. refl;
  discarding = λ pkg w n h. omega arith;
}

pub firmware-Reads : Reads firmware (λ w. w)
firmware-Reads = record {
  stats = λ pkg i w. refl;
  opens = λ pkg i w. refl;
  reads = λ file n w. refl;
  closes = λ file w. refl;
}

ov_new-LeavesNone_example :
    LeavesNone
      (λ w. w)
      firmware-Reads
      (steady 0)
      firmware-Counts
      3
      (ov_new (λ n. true) [] (some "ov3.fwpkg") 3)
ov_new-LeavesNone_example =
    ov_new-LeavesNone (λ w. w) firmware-Reads (steady 0) firmware-Counts (λ n. true) []
      (some "ov3.fwpkg") 3

abbrev pub no_reg : Reg
no_reg = record { error_str = none; addr = [] }

abbrev open_line : Line
open_line = record { opened = true; written = [] }

abbrev ov : OvDevice (steady 4) firmware
ov = record {
  cha = record { ftdi = open_line; reg = no_reg; error_str = none };
  chb = record { ftdi = open_line; error_str = none };
  fwpkg = record { pkg = some tt; map_index = 0; bitstream_index = 1; error_str = none; world = 1 };
  error_str = none;
}

abbrev pub unset : Bit
unset = record {
  data_ptr = [];
  size = 0;
  ncd_filename = none;
  part_name = none;
  date = none;
  time = none;
  bit_length = 0;
  error_str = none;
}

ov_load_firmware-Reloads_example :
    Reloads
      (λ w. w)
      firmware-Reads
      (steady 4)
      5
      (λ n. true)
      unset
      no_reg
      firmware-Counts
      1
      (some tt)
      (ov_load_firmware 5 (λ n. true) unset no_reg [] (some "other.fwpkg") ov)
ov_load_firmware-Reloads_example =
    ov_load_firmware-Reloads (λ w. w) firmware-Reads (steady 4) 5 (λ n. true) unset no_reg
      firmware-Counts [] (some "other.fwpkg") ov

ov_load_firmware_from_fwpkg-IsDefined_example :
    IsDefined (steady_recorder 4) 5 (ov_load_firmware_from_fwpkg 5 (λ n. true) unset tt ov.fwpkg ov)
ov_load_firmware_from_fwpkg-IsDefined_example =
    ov_load_firmware_from_fwpkg-IsDefined (steady_recorder 4) 5 (λ n. true) unset tt ov.fwpkg ov

-- A capture whose limit was reached, with a log of its packets.
abbrev capture : Capturing (steady 4) firmware (List ℕ)
capture = record {
  ov = ov;
  loop = record {
    pd =
        packet_decoder_init (record { magic = 0; flags = 0; size = 0; timestamp = 0; bytes = [] })
          20 loop_ops
          (record {
            reg = no_reg;
            error_str = none;
            callback = none;
            user_data = 1 ∷ [];
            count = 2;
            max_count = 1;
            state = count_limit;
            active_transfers = 0;
            complete = true;
          });
    state = need_frame_magic;
    word = 0;
    value = 0;
    checksum = 0;
  };
}

-- libusb cancels the transfers, since the program breaks off.
abbrev broken_run : Loop (List ℕ) → Loop (List ℕ) × Returned
broken_run loop = ((broken_off (submitted 0 loop)).loop, ended break_loop)

ops-capture : capture.loop.pd.ops ≡ loop_ops
unfolding packet_decoder_init
ops-capture = refl

broken_run-Runs :
    (r : Ret (Cha (steady 4)) (Unit {0}))
    → Runs {V = List ℕ} 5 8 "LIBUSB_SUCCESS" broken_run [] r ov capture.loop
broken_run-Runs (ok a cha) = broken_off-Ran 8 "LIBUSB_SUCCESS" 0 _ refl
broken_run-Runs (failed cha) = broken_off-Ran 8 "LIBUSB_SUCCESS" 0 _ refl
broken_run-Runs (waiting cha) = tt

ov_capture_stop-Ends_example : Ends 5 8 "LIBUSB_SUCCESS" (ov_capture_stop 5 broken_run [] capture)
ov_capture_stop-Ends_example =
    ov_capture_stop-Ends 5 8 "LIBUSB_SUCCESS" broken_run [] capture ops-capture (broken_run-Runs _)
