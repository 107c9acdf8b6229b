-- ===== src/Reg/State.antt =====
-- include/reg.h: the registers' names and their addresses.
use libopenvizsla.Prelude.{ℕ, Option, String, List, get_or}

-- `enum reg_name` without `REG_MAX`, in its order
pub data RegName : Type 0 where
  cstream_cfg cstream_cons_lo cstream_cons_hi leds_out : RegName
  sdram_host_read_ring_base sdram_host_read_ring_end sdram_host_read_go : RegName
  sdram_sink_ptr_read sdram_sink_ring_base sdram_sink_ring_end sdram_sink_go : RegName
  ucfg_wdata ucfg_wcmd ucfg_rdata ucfg_rcmd : RegName

abbrev pub reg_max : ℕ
reg_max = 15

abbrev pub reg_index : RegName → ℕ
reg_index cstream_cfg = 0
reg_index cstream_cons_lo = 1
reg_index cstream_cons_hi = 2
reg_index leds_out = 3
reg_index sdram_host_read_ring_base = 4
reg_index sdram_host_read_ring_end = 5
reg_index sdram_host_read_go = 6
reg_index sdram_sink_ptr_read = 7
reg_index sdram_sink_ring_base = 8
reg_index sdram_sink_ring_end = 9
reg_index sdram_sink_go = 10
reg_index ucfg_wdata = 11
reg_index ucfg_wcmd = 12
reg_index ucfg_rdata = 13
reg_index ucfg_rcmd = 14

-- `struct reg`: `addr` has `reg_max` entries of 16 bits.
pub record Reg : Type 0 where
  pub error_str : Option String
  pub addr : List ℕ

-- `reg->addr[name]`
unfoldable pub addr_of : Reg → RegName → ℕ
addr_of reg name = get_or reg.addr (reg_index name) 0xffff
