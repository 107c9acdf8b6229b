-- ===== src/Cha/Stream.antt =====
-- The functions of src/cha.c that start and stop the stream of captured packets.
use libopenvizsla.Prelude.{ℕ, ◌>>◌}
use libopenvizsla.Ftdi.{Ftdi}
use libopenvizsla.Reg.State.{
  cstream_cfg, sdram_host_read_ring_base, sdram_host_read_ring_end, sdram_host_read_go,
  sdram_sink_ptr_read, sdram_sink_ring_base, sdram_sink_ring_end, sdram_sink_go,
}
use libopenvizsla.Cha.State.{ChaAction}
use libopenvizsla.Cha.Registers.{
  cha_write_reg_by_name, cha_cast_reg_by_name, cha_write_reg32_by_name,
}

abbrev pub ring_base : ℕ
ring_base = 0

abbrev pub ring_end : ℕ
ring_end = 0x01000000

module _ (lib : Ftdi) (rounds : ℕ) where
  unfoldable pub cha_start_stream : ChaAction lib (Unit {0})
  unfolding cha_write_reg_by_name cha_cast_reg_by_name cha_write_reg32_by_name
  cha_start_stream = do
    cha_write_reg32_by_name lib rounds sdram_sink_ring_base ring_base
    cha_write_reg32_by_name lib rounds sdram_sink_ring_end ring_end
    cha_write_reg32_by_name lib rounds sdram_host_read_ring_base ring_base
    cha_write_reg32_by_name lib rounds sdram_host_read_ring_end ring_end
    cha_write_reg_by_name lib rounds sdram_sink_ptr_read 0
    cha_write_reg_by_name lib rounds sdram_sink_go 1
    cha_write_reg_by_name lib rounds cstream_cfg 1
    cha_cast_reg_by_name lib rounds sdram_host_read_go 1

  unfoldable pub cha_halt_stream : ChaAction lib (Unit {0})
  unfolding cha_cast_reg_by_name
  cha_halt_stream = cha_cast_reg_by_name lib rounds sdram_host_read_go 0

  unfoldable pub cha_stop_stream : ChaAction lib (Unit {0})
  unfolding cha_write_reg_by_name
  cha_stop_stream = do
    cha_write_reg_by_name lib rounds sdram_host_read_go 0
    cha_write_reg_by_name lib rounds cstream_cfg 0
    cha_write_reg_by_name lib rounds sdram_sink_go 0
