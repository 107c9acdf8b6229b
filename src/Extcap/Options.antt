-- ===== src/Extcap/Options.antt =====
-- The command line of tools/ovextcap/main.c, as getopt_long hands it over.
use libopenvizsla.Prelude.{
  ℕ, ◌==◌, leb, Bool, true, false, ◌&&◌, if◌then◌else◌, Option, none, some, String, List, [], ◌∷◌,
  same_bytes,
}
use libopenvizsla.Reg.Text.{codes}
use libopenvizsla.Cha.Ulpi.{UsbSpeed, low_speed, full_speed, high_speed}

-- `int`
pub data ℤ : Type 0 where
  pos : ℕ → ℤ
  negsuc : ℕ → ℤ

abbrev pub is_at_least : ℕ → ℤ → Bool
is_at_least n (pos m) = leb n m
is_at_least n (negsuc m) = false

abbrev pub is_int : ℕ → ℤ → Bool
is_int n (pos m) = n == m
is_int n (negsuc m) = false

-- What the C library makes of a text: the two numbers of "%d.%d", if sscanf returns 2, and atoi.
pub record Numbers : Type 0 where
  pub sscanf : String → Option (ℤ × ℤ)
  pub atoi : String → ℤ

-- `enum wireshark_version`
pub data WiresharkVersion : Type 0 where
  unknown v2_9_or_newer v3_1_or_newer v4_0_or_newer : WiresharkVersion

abbrev pub is_v3_1 : WiresharkVersion → Bool
is_v3_1 v3_1_or_newer = true
is_v3_1 _ = false

-- `!strcmp(a, b)`
abbrev pub is_same : String → String → Bool
is_same a b = same_bytes (codes a) (codes b)

-- `no_argument` options, for which getopt_long sets a flag.
pub data Flag : Type 0 where
  filter_nak filter_sof overwrite_debug_pcap extcap_interfaces extcap_dlts extcap_config capture :
      Flag

-- What a call of getopt_long gives; `other` is any other character code.
pub data Opt : Type 0 where
  flag : Flag → Opt
  speed_arg : String → Opt
  debug_pcap_arg : String → Opt
  version_arg : Option String → Opt
  interface_arg : String → Opt
  fifo_arg : String → Opt
  other : Opt

-- The variables of main.
pub record Options : Type 0 where
  pub speed : UsbSpeed
  pub filter_naks : Bool
  pub filter_sofs : Bool
  pub overwrite_debug_pcap : Bool
  pub debug_pcap_filename : Option String
  pub do_extcap_version : Bool
  pub do_extcap_interfaces : Bool
  pub do_extcap_dlts : Bool
  pub do_extcap_config : Bool
  pub do_extcap_capture : Bool
  pub ws_version : WiresharkVersion
  pub extcap_interface : Option String
  pub extcap_fifo : Option String

abbrev pub no_options : Options
no_options = record {
  speed = high_speed;
  filter_naks = false;
  filter_sofs = false;
  overwrite_debug_pcap = false;
  debug_pcap_filename = none;
  do_extcap_version = false;
  do_extcap_interfaces = false;
  do_extcap_dlts = false;
  do_extcap_config = false;
  do_extcap_capture = false;
  ws_version = unknown;
  extcap_interface = none;
  extcap_fifo = none;
}

abbrev pub set_flag : Flag → Options → Options
set_flag filter_nak o = record o { filter_naks = true }
set_flag filter_sof o = record o { filter_sofs = true }
set_flag overwrite_debug_pcap o = record o { overwrite_debug_pcap = true }
set_flag extcap_interfaces o = record o { do_extcap_interfaces = true }
set_flag extcap_dlts o = record o { do_extcap_dlts = true }
set_flag extcap_config o = record o { do_extcap_config = true }
set_flag capture o = record o { do_extcap_capture = true }

-- The `switch` over the number of `--speed`; none for an invalid one.
abbrev pub with_speed : ℤ → Options → Option Options
with_speed n o =
    if is_int 0x4a n
    then some (record o { speed = low_speed })
    else if is_int 0x49 n
    then some (record o { speed = full_speed })
    else if is_int 0x48 n
    then some (record o { speed = high_speed })
    else none

module _ (lib : Numbers) where
  abbrev pub version_of : Option (ℤ × ℤ) → WiresharkVersion
  version_of none = unknown
  version_of (some (major, minor)) =
      if is_at_least 4 major
      then v4_0_or_newer
      else if is_int 3 major && is_at_least 1 minor
      then v3_1_or_newer
      else v2_9_or_newer

  unfoldable pub wireshark_version_from_string : Option String → WiresharkVersion
  wireshark_version_from_string none = unknown
  wireshark_version_from_string (some version) = version_of (lib.sscanf version)

  -- The `switch` of main. None is the return of -1.
  unfoldable pub take_option : Opt → Options → Option Options
  take_option (flag f) o = some (set_flag f o)
  take_option (speed_arg text) o = with_speed (lib.atoi text) o
  take_option (debug_pcap_arg name) o = some (record o { debug_pcap_filename = some name })
  take_option (version_arg text) o =
      some (record o { do_extcap_version = true; ws_version = wireshark_version_from_string text })
  take_option (interface_arg name) o = some (record o { extcap_interface = some name })
  take_option (fifo_arg name) o = some (record o { extcap_fifo = some name })
  take_option other o = none

  abbrev pub and_take : Option Options → (Options → Option Options) → Option Options
  and_take none rest = none
  and_take (some o) rest = rest o

  -- The loop over the options.
  unfoldable pub take_options : List Opt → Options → Option Options
  take_options [] o = some o
  take_options (opt ∷ opts) o = and_take (take_option opt o) (λ o'. take_options opts o')
