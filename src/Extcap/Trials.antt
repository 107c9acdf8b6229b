-- ===== src/Extcap/Trials.antt =====
-- Runs of start_capture and main of tools/ovextcap/main.c, and the witnesses of their theorems.
use libopenvizsla.Prelude.{refl, true, [], ◌∷◌, Bytes, some, none, List, false}
use libopenvizsla.Decoder.State.{packet_decoder_init, frame_decoder_init}
use libopenvizsla.Loop.State.{break_loop}
use libopenvizsla.Loop.Run.{ended, cha_loop_init}
use libopenvizsla.Loop.Ran.{submitted, broken_off, broken_off-Ran}
use libopenvizsla.Loop.Handed.{RunsOn}
use libopenvizsla.Loop.Callbacks.{cha_loop_break}
use libopenvizsla.Device.Open.{OvDevice}
use libopenvizsla.Extcap.Callback.{handler_callback}
use libopenvizsla.Ftdi.{Ftdi}
use libopenvizsla.Cha.Ulpi.{full_speed}
use libopenvizsla.Device.Tests.{firmware, firmware-Counts, firmware-Reads, unset}
use libopenvizsla.Tools.Exit.{Exit}
use libopenvizsla.Tools.Board.{board}
use libopenvizsla.Tools.Closes.{Closes}
use libopenvizsla.Extcap.Options.{
  Numbers, pos, Opt, flag, capture, filter_sof, speed_arg, interface_arg, fifo_arg,
}
use libopenvizsla.Extcap.Listing.{Line}
use libopenvizsla.Extcap.Main.{Opening, Ending, ovextcap_main}
use libopenvizsla.Extcap.Asked.{Agrees, ovextcap_main-Agrees}
use libopenvizsla.Extcap.Capture.{Settings, Surroundings, End, new_data, start_capture}
use libopenvizsla.Extcap.Ready.{Writes, capture_loop}
use libopenvizsla.Extcap.Captured.{file_bytes, start_capture-Writes}
use libopenvizsla.Extcap.Finished.{start_capture-Closes}
use libopenvizsla.Extcap.Tests.{host, host-Reliable, tool_loop, no_packet}

-- A capture to an empty fifo, on a simulated board, with a debug file.
abbrev settings : Settings Bytes
settings = record {
  speed = full_speed;
  linktype = 294;
  filter_naks = false;
  filter_sofs = false;
  debug_pcap = some [];
}

abbrev surroundings : Surroundings Bytes
surroundings = record {
  fifo = some [];
  tv_sec = 1_700_000_000;
  tv_nsec = 999_999_999;
  packet = no_packet;
  dispatch = λ loop. ((broken_off (submitted 0 loop)).loop, ended break_loop);
  stop = λ loop. ((broken_off (submitted 0 loop)).loop, ended break_loop);
}

-- The done pin of the FPGA, before it is programmed and behind the bitstream.
abbrev usb_board : Ftdi
usb_board = board (0 ∷ 0xff ∷ [])

abbrev capturing : Exit firmware (End Bytes)
capturing = start_capture host usb_board 5 (λ n. true) settings surroundings unset tool_loop [] 3

-- The run of the loop is broken off before a packet arrives.
broken_off-RunsOn :
    (ov : OvDevice usb_board firmware)
    → (let before =
          capture_loop host surroundings tool_loop (new_data host settings surroundings []) ov in
        RunsOn (handler_callback host) [] before (surroundings.dispatch before))
unfolding cha_loop_init packet_decoder_init frame_decoder_init cha_loop_break
broken_off-RunsOn ov = record {
  size = 512;
  no_error = "LIBUSB_SUCCESS";
  ran = broken_off-Ran 512 "LIBUSB_SUCCESS" 0 _ refl;
  made = refl;
}

start_capture-Writes_example :
    Writes host host-Reliable {lib = firmware} (file_bytes host settings surroundings [] []) (
      start_capture host usb_board {lib = firmware} 5
        (λ n. true)
        settings
        surroundings
        unset
        tool_loop
        []
        3)
start_capture-Writes_example =
    start_capture-Writes host host-Reliable usb_board firmware 5 (λ n. true) settings surroundings
      [] [] [] unset tool_loop [] 3 refl refl broken_off-RunsOn refl refl

start_capture-Closes_example :
    Closes {lib = firmware}
      (λ w. w)
      3
      (start_capture host usb_board 5 (λ n. true) settings surroundings unset tool_loop [] 3)
start_capture-Closes_example =
    start_capture-Closes (λ w. w) firmware-Reads usb_board firmware-Counts 5 (λ n. true) host
      settings surroundings unset tool_loop [] 3

-- A full speed capture, whose `--speed` is another one.
abbrev c_numbers : Numbers
c_numbers = record { sscanf = λ t. none; atoi = λ t. pos 72 }

abbrev no_files : Opening Bytes
no_files = record { truncate = λ name. some []; create = λ name. none }

abbrev command_line : List Opt
command_line =
    flag capture
    ∷ speed_arg "72"
    ∷ interface_arg "ov-full"
    ∷ flag filter_sof
    ∷ fifo_arg "/tmp/wireshark"
    ∷ []

abbrev started_main : List Line × Ending Bytes
started_main = ovextcap_main c_numbers no_files command_line

ovextcap_main-Agrees_example :
    Agrees c_numbers no_files command_line (ovextcap_main c_numbers no_files command_line).1
ovextcap_main-Agrees_example = ovextcap_main-Agrees c_numbers no_files command_line
