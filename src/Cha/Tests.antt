-- ===== src/Cha/Tests.antt =====
-- Runs of src/cha.c on a simulated FPGA, and instances of what is proved.
use libopenvizsla.Prelude.{
  ℕ, ◌≡◌, ◌≢◌, refl, none, [], ◌∷◌, replicate, ok, failed, waiting, Ret, ◌>>=◌, arith,
}
use libopenvizsla.Cha.State.{Cha}
use libopenvizsla.Cha.Message.{message}
use libopenvizsla.Cha.Transaction.{scan, sync_loop}
use libopenvizsla.Cha.Registers.{write_loop, read_loop, cha_write_reg32, cha_read_reg32}
use libopenvizsla.Cha.Words.{fetched_bytes, stored_bytes, cha_read_reg32-cha_write_reg32}
use libopenvizsla.Cha.Sync.{IsSynced, sync_loop_lem, scan-missed}
use libopenvizsla.Cha.Sim.{sim, sim_device}

abbrev start : Cha sim
start = record {
  ftdi = record { registers = λ a. 0; pending = [] };
  reg = record { error_str = none; addr = replicate 15 0xff };
  error_str = none;
}

abbrev result : Ret (Cha sim) ℕ → ℕ
result (ok a cha) = a
result (failed cha) = 0
result (waiting cha) = 1

write_then_read :
    result ((cha_write_reg32 sim 1 0x1234 0xdeadbeef >>= λ _. cha_read_reg32 sim 1 0x1234 7) start)
    ≡ 0xdeadbeef
unfolding cha_write_reg32 cha_read_reg32 write_loop read_loop
write_then_read = refl

-- Across the end of the address space the read does not come to its end.
read_wraps : result (cha_read_reg32 sim 1 0xfffd 0 start) ≡ 1
unfolding cha_read_reg32 read_loop
read_wraps = refl

cha_read_reg32-cha_write_reg32_example :
    (cha_write_reg32 sim 1 0x0c28 0x01000000 >>= λ _. cha_read_reg32 sim 1 0x0c28 99) start
    ≡ ok 0x01000000 (record start {
      ftdi =
          fetched_bytes sim 1 sim_device 4 0x0c28
            (stored_bytes sim 1 sim_device 4 0x0c28 0x01000000 start.ftdi);
    })
cha_read_reg32-cha_write_reg32_example =
    cha_read_reg32-cha_write_reg32 sim 1 sim_device 0x0c28 99 0x01000000 start (omega arith)
      (omega arith) (λ k h. tt) tt

-- The message of address 0x8c28 comes back in front of another byte.
abbrev echoing : Cha sim
echoing = record start { ftdi = record { registers = λ a. 0; pending = message 0x8c28 0 } }

sync_loop_lem_example :
    IsSynced sim (message 0x8c28 0) [] echoing.ftdi (sync_loop sim 3 (message 0x8c28 0) 0 echoing)
sync_loop_lem_example = sync_loop_lem sim 3 0x8c28 echoing

scan-missed_example : scan (message 0x8c28 0) 0 (0x55 ∷ message 0x8c28 0) ≢ 5
scan-missed_example = scan-missed 0x8c28 (omega arith) (omega arith)
