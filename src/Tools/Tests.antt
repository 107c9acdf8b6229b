-- ===== src/Tools/Tests.antt =====
-- The programs under tools/, run on a simulated board.
use libopenvizsla.Prelude.{ℕ, true, none, [], ◌∷◌, List, replicate, false}
use libopenvizsla.Decoder.State.{Packet, packet_decoder_init, need_frame_magic}
use libopenvizsla.Loop.State.{Loop, running, break_loop, with_control}
use libopenvizsla.Loop.Callbacks.{loop_ops}
use libopenvizsla.Loop.Run.{start_control, ended}
use libopenvizsla.Loop.Ran.{submitted, broken_off}
use libopenvizsla.Loop.Limit.{deliver_all}
use libopenvizsla.Device.Tests.{firmware, firmware-Counts, firmware-Reads, no_reg, unset}
use libopenvizsla.Tools.Exit.{Exit}
use libopenvizsla.Tools.Board.{board}
use libopenvizsla.Tools.Load.{load_main}
use libopenvizsla.Tools.Sample.{Output, Runs, sample_main}
use libopenvizsla.Tools.Closes.{Closes, load_main-Closes, sample_main-Closes}

-- The done pin goes low when the FPGA is to be programmed, and high behind the bitstream, for the
-- device's own package and for the other one.
abbrev ready_board : List ℕ
ready_board = 0 ∷ 0xff ∷ 0 ∷ 0xff ∷ []

abbrev loading : Exit firmware ℕ
loading =
    load_main (board ready_board) 5 (λ n. true) unset no_reg [] ("ovload" ∷ "other.fwpkg" ∷ []) 3

load_main-Closes_example :
    Closes {lib = firmware}
      (λ w. w)
      3
      (load_main
        (board ready_board)
        5
        (λ n. true)
        unset
        no_reg
        []
        ("ovload" ∷ "other.fwpkg" ∷ [])
        3)
load_main-Closes_example =
    load_main-Closes (λ w. w) firmware-Reads (board ready_board) firmware-Counts 5 (λ n. true) unset
      no_reg [] ("ovload" ∷ "other.fwpkg" ∷ []) 3

-- The device's loop before it is initialised.
abbrev no_packet : Packet
no_packet = record { magic = 0; flags = 0; size = 0; timestamp = 0; bytes = replicate 8 0 }

abbrev sample_loop : Loop Output
sample_loop = record {
  pd = packet_decoder_init no_packet 1024 loop_ops (record {
    reg = no_reg;
    error_str = none;
    callback = none;
    user_data = [];
    count = 0;
    max_count = 0;
    state = running;
    active_transfers = 0;
    complete = false;
  });
  state = need_frame_magic;
  word = 0;
  value = 0;
  checksum = 0;
}

-- One packet comes before the program is interrupted.
abbrev one_packet : Packet
one_packet = record { magic = 0xa0; flags = 0; size = 1; timestamp = 7; bytes = 0xd2 ∷ [] }

abbrev sample_runs : Runs
sample_runs = record {
  dispatch = λ loop. (
    with_control (λ c. deliver_all (one_packet ∷ []) (start_control 100 c)) loop,
    ended break_loop,
  );
  stop = λ loop. ((broken_off (submitted 0 loop)).loop, ended break_loop);
}

abbrev sampling : Exit firmware ℕ
sampling =
    sample_main (board ready_board) 5 (λ n. true) sample_runs unset sample_loop no_packet [] 3

sample_main-Closes_example :
    Closes {lib = firmware}
      (λ w. w)
      3
      (sample_main (board ready_board) 5 (λ n. true) sample_runs unset sample_loop no_packet [] 3)
sample_main-Closes_example =
    sample_main-Closes (λ w. w) firmware-Reads (board ready_board) firmware-Counts 5 (λ n. true)
      unset sample_runs sample_loop no_packet [] 3
