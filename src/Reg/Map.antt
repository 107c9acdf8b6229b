-- ===== src/Reg/Map.antt =====
-- The functions of src/reg.c that read a register map.
use libopenvizsla.Prelude.{
  ℕ, ltb, ◌==◌, Bool, true, false, not, if◌then◌else◌, Option, none, some, List, [], ◌∷◌, Bytes,
  set, replicate, same_bytes,
}
use libopenvizsla.Reg.State.{
  RegName, cstream_cfg, cstream_cons_lo, cstream_cons_hi, leds_out, sdram_host_read_ring_base,
  sdram_host_read_ring_end, sdram_host_read_go, sdram_sink_ptr_read, sdram_sink_ring_base,
  sdram_sink_ring_end, sdram_sink_go, ucfg_wdata, ucfg_wcmd, ucfg_rdata, ucfg_rcmd, reg_max,
  reg_index, Reg,
}
use libopenvizsla.Reg.Text.{codes, split_at, strtok, strtoul}

-- The lines of src/reg.gperf.
abbrev pub reg_names : List RegName
reg_names =
    cstream_cfg ∷ cstream_cons_lo ∷ cstream_cons_hi ∷ leds_out ∷ sdram_host_read_ring_base
    ∷ sdram_host_read_ring_end ∷ sdram_host_read_go ∷ sdram_sink_ptr_read ∷ sdram_sink_ring_base
    ∷ sdram_sink_ring_end ∷ sdram_sink_go ∷ ucfg_wdata ∷ ucfg_wcmd ∷ ucfg_rdata ∷ ucfg_rcmd ∷ []

abbrev pub reg_text : RegName → Bytes
reg_text cstream_cfg = codes "CSTREAM_CFG"
reg_text cstream_cons_lo = codes "CSTREAM_CONS_LO"
reg_text cstream_cons_hi = codes "CSTREAM_CONS_HI"
reg_text leds_out = codes "LEDS_OUT"
reg_text sdram_host_read_ring_base = codes "SDRAM_HOST_READ_RING_BASE"
reg_text sdram_host_read_ring_end = codes "SDRAM_HOST_READ_RING_END"
reg_text sdram_host_read_go = codes "SDRAM_HOST_READ_GO"
reg_text sdram_sink_ptr_read = codes "SDRAM_SINK_PTR_READ"
reg_text sdram_sink_ring_base = codes "SDRAM_SINK_RING_BASE"
reg_text sdram_sink_ring_end = codes "SDRAM_SINK_RING_END"
reg_text sdram_sink_go = codes "SDRAM_SINK_GO"
reg_text ucfg_wdata = codes "UCFG_WDATA"
reg_text ucfg_wcmd = codes "UCFG_WCMD"
reg_text ucfg_rdata = codes "UCFG_RDATA"
reg_text ucfg_rcmd = codes "UCFG_RCMD"

unfoldable pub find_name : List RegName → Bytes → Option RegName
unfolding same_bytes
find_name [] key = none
find_name (name ∷ names) key =
    if same_bytes key (reg_text name) then some name else find_name names key

-- The function that gperf generates from the lines: the name with exactly this text.
abbrev pub in_word_set : Bytes → Option RegName
in_word_set = find_name reg_names

-- Return 0, return -1, or a failed `assert`.
pub data Load : Type 0 where
  loaded : Reg → Load
  refused : Reg → Load
  aborted : Load

abbrev pub put : Reg → ℕ → Option RegName → Reg
put reg value none = reg
put reg value (some name) = record reg { addr = set reg.addr (reg_index name) value }

-- The result of reg_from_pair is ignored, so that an unknown key changes nothing.
unfoldable pub reg_from_pair : Reg → Bytes → ℕ → Load
unfolding find_name
reg_from_pair reg key value =
    if not (ltb value 0xffff) then aborted else loaded (put reg value (in_word_set key))

-- `strtok` and the `assert` behind it.
abbrev pub with_key : Reg → Option Bytes → Bytes → Load
with_key reg none value = aborted
with_key reg (some key) value = reg_from_pair reg key (strtoul value)

-- The two sides of the `=`.
abbrev pub with_sides : Reg → Bytes × Option Bytes → Load
with_sides reg (key, none) = refused reg
with_sides reg (key, some value) = with_key reg (strtok key) value

unfoldable pub reg_from_line : Reg → Bytes → Load
unfolding reg_from_pair strtoul strtok split_at
reg_from_line reg [] = loaded reg
reg_from_line reg (c ∷ cs) =
    if c == b'#' then loaded reg else with_sides reg (split_at b'=' (c ∷ cs))

unfoldable pub is_complete : List ℕ → Bool
is_complete [] = true
is_complete (a ∷ rest) = if a == 0xffff then false else is_complete rest

unfoldable pub reg_validate : Reg → Load
unfolding is_complete
reg_validate reg =
    if is_complete reg.addr
    then loaded reg
    else refused (record reg { error_str = some "Missed register address" })

abbrev pub add_first : ℕ → List Bytes → List Bytes
add_first x [] = (x ∷ []) ∷ []
add_first x (l ∷ ls) = (x ∷ l) ∷ ls

-- The lines that the loop visits: what x_strchr cuts off at each newline, and the rest.
unfoldable pub lines : Bytes → List Bytes
lines [] = [] ∷ []
lines (x ∷ xs) = let rest = lines xs in if x == 10 then [] ∷ rest else add_first x rest

-- The loop of reg_init_from_map, and the validation behind it.
abbrev pub line_done : (Reg → Load) → Load → Load
line_done rest (loaded reg) = rest reg
line_done rest (refused reg) =
    refused (record reg { error_str = some "Can not parse register map" })
line_done rest aborted = aborted

unfoldable pub map_loop : List Bytes → Reg → Load
unfolding reg_from_line reg_validate
map_loop [] reg = reg_validate reg
map_loop (l ∷ ls) reg = line_done (map_loop ls) (reg_from_line reg l)

-- `memset` fills all addresses with ones.
abbrev pub unset_reg : Reg
unset_reg = record { error_str = none; addr = replicate reg_max 0xffff }

unfoldable pub reg_init : Bytes → Load
unfolding map_loop lines
reg_init map = map_loop (lines map) unset_reg
