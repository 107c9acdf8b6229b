-- ===== src/Cha/Port.antt =====
-- The functions of src/cha.c that open port A and switch its mode.
use libopenvizsla.Prelude.{ℕ, bit_or, Ret, ok, failed, waiting, ◌>>◌, replicate}
use libopenvizsla.Ftdi.{Ftdi}
use libopenvizsla.Reg.State.{Reg, addr_of, sdram_host_read_go}
use libopenvizsla.Cha.State.{Cha, ChaAction, request, write_data}
use libopenvizsla.Cha.Transaction.{cha_sync_stream}

module _ (lib : Ftdi) (rounds : ℕ) where
  unfoldable pub cha_switch_mode : ℕ → ChaAction lib (Unit {0})
  cha_switch_mode mode = do
    request (lib.set_bitmode 0 lib.bitmode_reset)
    request (lib.set_bitmode 0xff mode)
    request (lib.set_baudrate 315000)
    request lib.tcioflush

  unfoldable pub cha_switch_config_mode : ChaAction lib (Unit {0})
  unfolding cha_switch_mode
  cha_switch_config_mode = cha_switch_mode lib.bitmode_bitbang

  abbrev pub sync_at : Cha lib → ChaAction lib (Unit {0})
  unfolding cha_sync_stream
  sync_at cha = cha_sync_stream lib rounds (bit_or 0x8000 (addr_of cha.reg sdram_host_read_go))

  unfoldable pub cha_switch_fifo_mode : ChaAction lib (Unit {0})
  unfolding cha_switch_mode sync_at addr_of
  cha_switch_fifo_mode = do
    cha_switch_mode lib.bitmode_syncff
    write_data (replicate 512 0)
    λ cha. sync_at cha cha

  -- The label `fail_ftdi_usb_reset`.
  abbrev pub close_failed : Ret (Cha lib) (Unit {0}) → Ret (Cha lib) (Unit {0})
  close_failed (ok a cha) = ok a cha
  close_failed (failed cha) = failed (record cha { ftdi = lib.usb_close cha.ftdi })
  close_failed (waiting cha) = waiting cha

  abbrev pub close_unless : ChaAction lib (Unit {0}) → ChaAction lib (Unit {0})
  close_unless m cha = close_failed (m cha)

  unfoldable pub cha_open : ChaAction lib (Unit {0})
  unfolding cha_switch_config_mode
  cha_open = do
    request (lib.usb_open 0x1d50 0x607c)
    close_unless (request lib.usb_reset >> cha_switch_config_mode)

  -- `reg_init_from_reg` copies the map and returns 0.
  unfoldable pub cha_set_reg : Reg → ChaAction lib (Unit {0})
  cha_set_reg reg cha = ok tt (record cha { reg = reg })

  unfoldable pub cha_destroy : Cha lib → Cha lib
  cha_destroy cha = record cha { ftdi = lib.deinit cha.ftdi }
