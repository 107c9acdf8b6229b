-- ===== src/Extcap/Listing.antt =====
-- What tools/ovextcap/main.c prints for Wireshark.
use libopenvizsla.Prelude.{ℕ, if◌then◌else◌, ◌||◌, String, List, [], ◌∷◌, ◌++◌}
use libopenvizsla.Cha.Ulpi.{low_speed, full_speed, high_speed, speed_code}
use libopenvizsla.Extcap.Options.{WiresharkVersion, is_v3_1, is_same}

abbrev pub extcap_interface_deprecated : String
extcap_interface_deprecated = "ov"

abbrev pub extcap_interface_low_speed : String
extcap_interface_low_speed = "ov-low"

abbrev pub extcap_interface_full_speed : String
extcap_interface_full_speed = "ov-full"

abbrev pub extcap_interface_high_speed : String
extcap_interface_high_speed = "ov-high"

abbrev pub linktype_usbll : ℕ
linktype_usbll = 288

abbrev pub linktype_usbll_low_speed : ℕ
linktype_usbll_low_speed = 293

abbrev pub linktype_usbll_full_speed : ℕ
linktype_usbll_full_speed = 294

abbrev pub linktype_usbll_high_speed : ℕ
linktype_usbll_high_speed = 295

-- A part of a printed line: text, or what a `%d` prints.
pub data Piece : Type 0 where
  text : String → Piece
  number : ℕ → Piece

-- A line without its newline.
abbrev pub Line : Type 0
Line = List Piece

abbrev pub extcap_version : Line
extcap_version =
    text "extcap {version="
    ∷ text "0.0.3"
    ∷ text "}{help=https://github.com/matwey/libopenvizsla/}"
    ∷ []

abbrev pub interface_line : String → String → Line
interface_line value display =
    text "interface {value=" ∷ text value ∷ text "}{display=" ∷ text display ∷ []

abbrev pub print_extcap_interfaces : WiresharkVersion → List Line
print_extcap_interfaces ws_version =
    if is_v3_1 ws_version
    then interface_line extcap_interface_deprecated "OpenVizsla FPGA-based USB sniffer}" ∷ []
    else interface_line extcap_interface_low_speed "OpenVizsla Low Speed USB capture}"
      ∷ interface_line extcap_interface_full_speed "OpenVizsla Full Speed USB capture}"
      ∷ interface_line extcap_interface_high_speed "OpenVizsla High Speed USB capture}"
      ∷ []

abbrev pub dlt_line : ℕ → String → Line
dlt_line linktype rest = text "dlt {number=" ∷ number linktype ∷ text rest ∷ []

abbrev pub print_extcap_dlts : String → List Line
print_extcap_dlts interface =
    if is_same interface extcap_interface_deprecated
    then dlt_line linktype_usbll "}{name=USB_2_0}{display=USB 2.0/1.1/1.0}" ∷ []
    else if is_same interface extcap_interface_low_speed
    then dlt_line linktype_usbll_low_speed
        "}{name=USB_2_0_LOW_SPEED}{display=Low-Speed USB 2.0/1.1/1.0}"
      ∷ []
    else if is_same interface extcap_interface_full_speed
    then dlt_line linktype_usbll_full_speed
        "}{name=USB_2_0_FULL_SPEED}{display=Full-Speed USB 2.0/1.1/1.0}"
      ∷ []
    else if is_same interface extcap_interface_high_speed
    then dlt_line linktype_usbll_high_speed "}{name=USB_2_0_HIGH_SPEED}{display=High-Speed USB 2.0}"
      ∷ []
    else []

abbrev pub speed_value : ℕ → String → Line
speed_value code rest = text "value {arg=0}{value=" ∷ number code ∷ text rest ∷ []

-- The selector of the speed.
abbrev pub speed_lines : List Line
speed_lines =
    (text
        "arg {number=0}{call=--speed}{display=Capture speed}{tooltip=Analyzed device USB speed}{type=selector}{default="
      ∷ number (speed_code high_speed)
      ∷ text "}{group=Capture}"
      ∷ [])
    ∷ speed_value (speed_code high_speed) "}{display=High}"
    ∷ speed_value (speed_code full_speed) "}{display=Full}"
    ∷ speed_value (speed_code low_speed) "}{display=Low}"
    ∷ []

abbrev pub nak_line : Line
nak_line =
    text
      "arg {number=1}{call=--filter-nak}{display=Filter NAKed transactions}{tooltip=NAKed SPLIT transactions won't be filtered}{type=boolflag}{default=false}{group=Capture}"
    ∷ []

abbrev pub sof_line : String → Line
sof_line display =
    text "arg {number=2}{call=--filter-sof}"
    ∷ text display
    ∷ text
        "{tooltip=Only SOFs that do not interrupt any transaction will be filtered}{type=boolflag}{default=false}{group=Capture}"
    ∷ []

abbrev pub sof_lines : String → List Line
sof_lines interface =
    if is_same interface extcap_interface_deprecated
    then sof_line "{display=Filter Full and High speed Start-of-Frame packets}" ∷ []
    else if is_same interface extcap_interface_full_speed
        || is_same interface extcap_interface_high_speed
    then sof_line "{display=Filter Start-of-Frame packets}" ∷ []
    else []

abbrev pub debug_lines : List Line
debug_lines =
    (text
        "arg {number=800}{call=--overwrite-debug-pcap}{display=Overwrite .pcap file if it exists}{type=boolflag}{required=false}{default=false}{group=Debug}"
      ∷ [])
    ∷ (text
          "arg {number=801}{call=--debug-pcap}{display=Save all packets to .pcap file}{type=fileselect}{fileext=pcap (*.pcap)}{tooltip=Set a file where all incoming packets are written (unfiltered)}{required=false}{group=Debug}"
        ∷ [])
    ∷ []

abbrev pub print_extcap_options : String → List Line
print_extcap_options interface =
    (if is_same interface extcap_interface_deprecated then speed_lines else [])
    ++ ((nak_line ∷ []) ++ (sof_lines interface ++ debug_lines))
