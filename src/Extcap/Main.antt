-- ===== src/Extcap/Main.antt =====
-- main of tools/ovextcap/main.c, up to start_capture.
use libopenvizsla.Prelude.{
  ℕ, Bool, true, false, if◌then◌else◌, Option, none, some, String, List, [], ◌∷◌, ◌++◌,
}
use libopenvizsla.Cha.Ulpi.{UsbSpeed, low_speed, full_speed, high_speed}
use libopenvizsla.Extcap.Options.{Numbers, is_same, Opt, Options, no_options, take_options}
use libopenvizsla.Extcap.Listing.{
  Line, extcap_interface_low_speed, extcap_interface_full_speed, extcap_interface_high_speed,
  linktype_usbll, linktype_usbll_low_speed, linktype_usbll_full_speed, linktype_usbll_high_speed,
  extcap_version, print_extcap_interfaces, print_extcap_dlts, print_extcap_options,
}
use libopenvizsla.Extcap.Capture.{Settings}

-- How main ends: it returns -1 or 0, or what start_capture returns for a fifo.
pub data Ending (File : Type 0) : Type 0 where
  minus_one : Ending File
  zero : Ending File
  captures : Settings File → String → Ending File

-- How the host opens the debug file: truncating it, or only if there is none.
pub record Opening (File : Type 0) : Type 0 where
  pub truncate : String → Option File
  pub create : String → Option File

-- `linktype` and `speed` behind the comparisons with the names of the interfaces.
unfoldable pub interface_settings : Option String → UsbSpeed → ℕ × UsbSpeed
interface_settings none speed = (linktype_usbll, speed)
interface_settings (some i) speed =
    if is_same i extcap_interface_low_speed
    then (linktype_usbll_low_speed, low_speed)
    else if is_same i extcap_interface_full_speed
    then (linktype_usbll_full_speed, full_speed)
    else if is_same i extcap_interface_high_speed
    then (linktype_usbll_high_speed, high_speed)
    else (linktype_usbll, speed)

abbrev pub printed_if : Bool → List Line → List Line
printed_if b lines = if b then lines else []

abbrev pub interface_listings : Option String → Options → List Line
interface_listings none o = []
interface_listings (some i) o =
    printed_if o.do_extcap_dlts (print_extcap_dlts i)
    ++ printed_if o.do_extcap_config (print_extcap_options i)

-- All that is printed.
unfoldable pub listings : Options → List Line
listings o =
    printed_if o.do_extcap_version (extcap_version ∷ [])
    ++ (printed_if o.do_extcap_interfaces (print_extcap_interfaces o.ws_version)
        ++ interface_listings o.extcap_interface o)

module _ {File : Type 0} where
  -- `if (!debug_pcap)`
  abbrev pub debug_checked : Option File → Option File × Bool
  debug_checked none = (none, false)
  debug_checked (some f) = (some f, true)

  -- The debug file, and whether there is one as asked for.
  abbrev pub debug_opened : Opening File → Options → Option String → Option File × Bool
  debug_opened host o none = (none, true)
  debug_opened host o (some name) =
      debug_checked (if o.overwrite_debug_pcap then host.truncate name else host.create name)

  abbrev pub capture_with : Options → ℕ × UsbSpeed → String → Option File × Bool → Ending File
  capture_with o (linktype, speed) fifo (debug, good) =
      if good
      then captures
          (record {
            speed = speed;
            linktype = linktype;
            filter_naks = o.filter_naks;
            filter_sofs = o.filter_sofs;
            debug_pcap = debug;
          })
          fifo
      else minus_one

  -- With a fifo and an interface.
  abbrev pub capture_from : Opening File → Options → Option String → Option String → Ending File
  capture_from host o (some fifo) (some i) =
      capture_with o (interface_settings o.extcap_interface o.speed) fifo
        (debug_opened host o o.debug_pcap_filename)
  capture_from host o _ _ = minus_one

  unfoldable pub ending : Opening File → Options → Ending File
  ending host o =
      if o.do_extcap_capture then capture_from host o o.extcap_fifo o.extcap_interface else zero

  abbrev pub main_with : Opening File → Option Options → List Line × Ending File
  main_with host none = ([], minus_one)
  main_with host (some o) = (listings o, ending host o)

  unfoldable pub ovextcap_main : Numbers → Opening File → List Opt → List Line × Ending File
  ovextcap_main lib host opts = main_with host (take_options lib opts no_options)
