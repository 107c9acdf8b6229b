-- ===== src/Extcap/Asked.antt =====
-- What the command line of tools/ovextcap/main.c asks for, and what main makes of it.
use mathlib.Core.Path.{subst}
use libopenvizsla.Prelude.{
  ◌≡◌, ◌⊎◌, refl, sym, ap, ◌∙◌, ◌||◌, arith, Bool, true, false, if◌then◌else◌, Option, none, some,
  String, List, [], ◌∷◌, ℕ, Bool-cases, inl, inr,
}
use libopenvizsla.Extcap.Options.{
  ℤ, Numbers, is_int, filter_nak, filter_sof, overwrite_debug_pcap, extcap_interfaces, extcap_dlts,
  extcap_config, capture, Opt, flag, speed_arg, debug_pcap_arg, version_arg, interface_arg,
  fifo_arg, other, Options, no_options, take_option, and_take, take_options,
}
use libopenvizsla.Cha.Ulpi.{UsbSpeed, low_speed, full_speed, high_speed}
use libopenvizsla.Extcap.Main.{
  Ending, minus_one, zero, captures, Opening, interface_settings, capture_with, capture_from,
  debug_checked, debug_opened, ending, main_with, ovextcap_main,
}
use libopenvizsla.Extcap.Consistent.{Suits, interface_settings-Suits}

-- Whether one of the options has the property, and the last value that one of them gives.
abbrev pub any_opt : (Opt → Bool) → List Opt → Bool
any_opt f [] = false
any_opt f (o ∷ os) = f o || any_opt f os

abbrev pub or_else : {A : Type 0} → A → Option A → A
or_else a none = a
or_else a (some b) = b

abbrev pub last_opt : {A : Type 0} → (Opt → Option A) → A → List Opt → A
last_opt f a [] = a
last_opt f a (o ∷ os) = last_opt f (or_else a (f o)) os

abbrev pub is_filter_nak : Opt → Bool
is_filter_nak (flag filter_nak) = true
is_filter_nak _ = false

abbrev pub is_filter_sof : Opt → Bool
is_filter_sof (flag filter_sof) = true
is_filter_sof _ = false

abbrev pub is_overwrite : Opt → Bool
is_overwrite (flag overwrite_debug_pcap) = true
is_overwrite _ = false

abbrev pub is_capture : Opt → Bool
is_capture (flag capture) = true
is_capture _ = false

abbrev pub fifo_in : Opt → Option (Option String)
fifo_in (fifo_arg name) = some (some name)
fifo_in _ = none

abbrev pub interface_in : Opt → Option (Option String)
interface_in (interface_arg name) = some (some name)
interface_in _ = none

abbrev pub debug_in : Opt → Option (Option String)
debug_in (debug_pcap_arg name) = some (some name)
debug_in _ = none

-- The speed with a number of `enum ov_usb_speed`.
abbrev pub speed_numbered : ℤ → Option UsbSpeed
speed_numbered n =
    if is_int 74 n
    then some low_speed
    else if is_int 73 n
    then some full_speed
    else if is_int 72 n
    then some high_speed
    else none

abbrev pub is_none : {A : Type 0} → Option A → Bool
is_none none = true
is_none (some a) = false

module _ (lib : Numbers) where
  abbrev pub speed_in : Opt → Option UsbSpeed
  speed_in (speed_arg text) = speed_numbered (lib.atoi text)
  speed_in _ = none

  -- An unknown option, or a number that is not a speed's.
  abbrev pub is_invalid : Opt → Bool
  is_invalid (speed_arg text) = is_none (speed_numbered (lib.atoi text))
  is_invalid other = true
  is_invalid _ = false

-- The options `o` as the list turns them into `o'`.
abbrev Follows : Numbers → List Opt → Options → Options → Type 0
Follows lib opts o o' =
    (o'.filter_naks ≡ (any_opt is_filter_nak opts || o.filter_naks))
    × (o'.filter_sofs ≡ (any_opt is_filter_sof opts || o.filter_sofs))
    × (o'.overwrite_debug_pcap ≡ (any_opt is_overwrite opts || o.overwrite_debug_pcap))
    × (o'.do_extcap_capture ≡ (any_opt is_capture opts || o.do_extcap_capture))
    × (o'.extcap_fifo ≡ last_opt fifo_in o.extcap_fifo opts)
    × (o'.extcap_interface ≡ last_opt interface_in o.extcap_interface opts)
    × (o'.debug_pcap_filename ≡ last_opt debug_in o.debug_pcap_filename opts)
    × (o'.speed ≡ last_opt (speed_in lib) o.speed opts)

abbrev Takes : Numbers → List Opt → Options → Option Options → Type 0
Takes lib opts o none = any_opt (is_invalid lib) opts ≡ true
Takes lib opts o (some o') = (any_opt (is_invalid lib) opts ≡ false) × Follows lib opts o o'

or_swap : (a b c x : Bool) → x ≡ (b || ((a || false) || c)) → x ≡ ((a || b) || c)
or_swap a b c x h = ground (arith, h)

or_both : (a b : Bool) → (a || false) ≡ false → b ≡ false → (a || b) ≡ false
or_both a b h k = ground (arith, h, k)

or_first : (a b : Bool) → (a || false) ≡ true → (a || b) ≡ true
or_first a b h = ground (arith, h)

or_second : (a b : Bool) → b ≡ true → (a || b) ≡ true
or_second a b h = ground (arith, h)

module _ (lib : Numbers) where
  abbrev with_one : Options → Option UsbSpeed → Option Options
  with_one o none = none
  with_one o (some speed) = some (record o { speed = speed })

  abbrev chosen : {A : Type 0} → (UsbSpeed → A) → Bool → Bool → Bool → Option A
  chosen f low full high =
      if low
      then some (f low_speed)
      else if full
      then some (f full_speed)
      else if high
      then some (f high_speed)
      else none

  with_chosen :
      (o : Options) (low full high : Bool)
      → chosen (λ speed. record o { speed = speed }) low full high
        ≡ with_one o (chosen (λ speed. speed) low full high)
  with_chosen o true full high = refl
  with_chosen o false true high = refl
  with_chosen o false false true = refl
  with_chosen o false false false = refl

  chosen-Takes :
      (text : String) (o : Options) (r : Option UsbSpeed)
      → speed_numbered (lib.atoi text) ≡ r
      → Takes lib (speed_arg text ∷ []) o (with_one o r)
  chosen-Takes text o none e = ap (λ (r : Option UsbSpeed). is_none r || false) e
  chosen-Takes text o (some speed) e = (
    ap (λ (r : Option UsbSpeed). is_none r || false) e,
    (refl, refl, refl, refl, refl, refl, refl, sym (ap (or_else o.speed) e)),
  )

  one-Takes : (opt : Opt) (o : Options) → Takes lib (opt ∷ []) o (take_option lib opt o)
  unfolding take_option
  one-Takes (flag filter_nak) o = (refl, (refl, refl, refl, refl, refl, refl, refl, refl))
  one-Takes (flag filter_sof) o = (refl, (refl, refl, refl, refl, refl, refl, refl, refl))
  one-Takes (flag overwrite_debug_pcap) o = (refl, (refl, refl, refl, refl, refl, refl, refl, refl))
  one-Takes (flag extcap_interfaces) o = (refl, (refl, refl, refl, refl, refl, refl, refl, refl))
  one-Takes (flag extcap_dlts) o = (refl, (refl, refl, refl, refl, refl, refl, refl, refl))
  one-Takes (flag extcap_config) o = (refl, (refl, refl, refl, refl, refl, refl, refl, refl))
  one-Takes (flag capture) o = (refl, (refl, refl, refl, refl, refl, refl, refl, refl))
  one-Takes (speed_arg text) o =
      subst (Takes lib (speed_arg text ∷ []) o)
        (sym (
          with_chosen o (is_int 74 (lib.atoi text)) (is_int 73 (lib.atoi text))
            (is_int 72 (lib.atoi text))))
        (chosen-Takes text o (speed_numbered (lib.atoi text)) refl)
  one-Takes (debug_pcap_arg name) o = (refl, (refl, refl, refl, refl, refl, refl, refl, refl))
  one-Takes (version_arg text) o = (refl, (refl, refl, refl, refl, refl, refl, refl, refl))
  one-Takes (interface_arg name) o = (refl, (refl, refl, refl, refl, refl, refl, refl, refl))
  one-Takes (fifo_arg name) o = (refl, (refl, refl, refl, refl, refl, refl, refl, refl))
  one-Takes other o = refl

  both-Takes :
      (opt : Opt) (opts : List Opt) (o o1 : Options) (r : Option Options)
      → Takes lib (opt ∷ []) o (some o1)
      → Takes lib opts o1 r
      → Takes lib (opt ∷ opts) o r
  both-Takes opt opts o o1 none h k = or_second (is_invalid lib opt) _ k
  both-Takes opt opts o o1 (some o2) h k = (
    or_both (is_invalid lib opt) (any_opt (is_invalid lib) opts) h.0 k.0,
    (
      or_swap (is_filter_nak opt) (any_opt is_filter_nak opts) o.filter_naks _
          (k.1.0 ∙ ap (λ b. any_opt is_filter_nak opts || b) h.1.0),
      or_swap (is_filter_sof opt) (any_opt is_filter_sof opts) o.filter_sofs _
          (k.1.1 ∙ ap (λ b. any_opt is_filter_sof opts || b) h.1.1),
      or_swap (is_overwrite opt) (any_opt is_overwrite opts) o.overwrite_debug_pcap _
          (k.1.2 ∙ ap (λ b. any_opt is_overwrite opts || b) h.1.2),
      or_swap (is_capture opt) (any_opt is_capture opts) o.do_extcap_capture _
          (k.1.3 ∙ ap (λ b. any_opt is_capture opts || b) h.1.3),
      k.1.4 ∙ ap (λ v. last_opt fifo_in v opts) h.1.4,
      k.1.5 ∙ ap (λ v. last_opt interface_in v opts) h.1.5,
      k.1.6 ∙ ap (λ v. last_opt debug_in v opts) h.1.6,
      k.1.7 ∙ ap (λ v. last_opt (speed_in lib) v opts) h.1.7,
    ),
  )

  then-Takes :
      (opt : Opt) (opts : List Opt) (o : Options) (r : Option Options)
      → Takes lib (opt ∷ []) o r
      → ((o1 : Options) → Takes lib opts o1 (take_options lib opts o1))
      → Takes lib (opt ∷ opts) o (and_take lib r (λ o1. take_options lib opts o1))
  then-Takes opt opts o none h k = or_first (is_invalid lib opt) _ h
  then-Takes opt opts o (some o1) h k = both-Takes opt opts o o1 (take_options lib opts o1) h (k o1)

  take_options-Takes : (opts : List Opt) (o : Options) → Takes lib opts o (take_options lib opts o)
  unfolding take_options
  take_options-Takes [] o = (refl, (refl, refl, refl, refl, refl, refl, refl, refl))
  take_options-Takes (opt ∷ opts) o =
      then-Takes opt opts o (take_option lib opt o) (one-Takes opt o) (take_options-Takes opts)

module _ {File : Type 0} (lib : Numbers) (host : Opening File) (opts : List Opt) where
  -- The debug file that the options ask for.
  abbrev debug_of : Bool → Option String → Option File
  debug_of over none = none
  debug_of over (some name) = if over then host.truncate name else host.create name

  -- How main may end.
  abbrev pub Agrees : Ending File → Type 0
  Agrees minus_one = (any_opt (is_invalid lib) opts ≡ true) ⊎ (any_opt is_capture opts ≡ true)
  Agrees zero = (any_opt (is_invalid lib) opts ≡ false) × (any_opt is_capture opts ≡ false)
  Agrees (captures s fifo) =
      (any_opt (is_invalid lib) opts ≡ false)
      × (any_opt is_capture opts ≡ true)
      × (last_opt fifo_in none opts ≡ some fifo)
      × ((i : String) × (last_opt interface_in none opts ≡ some i)
          × Suits i (last_opt (speed_in lib) high_speed opts) (s.linktype, s.speed))
      × (s.filter_naks ≡ any_opt is_filter_nak opts)
      × (s.filter_sofs ≡ any_opt is_filter_sof opts)
      × (s.debug_pcap ≡ debug_of (any_opt is_overwrite opts) (last_opt debug_in none opts))

  capture_with-Agrees :
      (o : Options) (i fifo : String) (r : ℕ × UsbSpeed) (d : Option File × Bool)
      → any_opt (is_invalid lib) opts ≡ false
      → any_opt is_capture opts ≡ true
      → last_opt fifo_in none opts ≡ some fifo
      → last_opt interface_in none opts ≡ some i
      → Suits i (last_opt (speed_in lib) high_speed opts) r
      → o.filter_naks ≡ any_opt is_filter_nak opts
      → o.filter_sofs ≡ any_opt is_filter_sof opts
      → d.0 ≡ debug_of (any_opt is_overwrite opts) (last_opt debug_in none opts)
      → Agrees (capture_with o r fifo d)
  capture_with-Agrees o i fifo (linktype, speed) (debug, true) valid on e k h naks sofs file =
      (valid, on, e, (i, k, h), naks, sofs, file)
  capture_with-Agrees o i fifo (linktype, speed) (debug, false) valid on e k h naks sofs file =
      inr on

  checked_lem : (r : Option File) → (debug_checked r).0 ≡ r
  checked_lem none = refl
  checked_lem (some f) = refl

  opened_debug :
      (o : Options) (name : Option String)
      → (debug_opened host o name).0 ≡ debug_of o.overwrite_debug_pcap name
  opened_debug o none = refl
  opened_debug o (some name) = checked_lem (debug_of o.overwrite_debug_pcap (some name))

  unset : (b x : Bool) → x ≡ (b || false) → x ≡ b
  unset b x h = ground (arith, h)

  capture_from-Agrees :
      (o : Options) (fifo i : Option String)
      → any_opt (is_invalid lib) opts ≡ false
      → Follows lib opts no_options o
      → any_opt is_capture opts ≡ true
      → o.extcap_fifo ≡ fifo
      → o.extcap_interface ≡ i
      → Agrees (capture_from host o fifo i)
  capture_from-Agrees o none i valid h on e k = inr on
  capture_from-Agrees o (some fifo) none valid h on e k = inr on
  capture_from-Agrees o (some fifo) (some i) valid h on e k =
      capture_with-Agrees o i fifo (interface_settings o.extcap_interface o.speed)
        (debug_opened host o o.debug_pcap_filename) valid on (sym h.4 ∙ e) (sym h.5 ∙ k)
        (subst
          (λ j. Suits i (last_opt (speed_in lib) high_speed opts) (interface_settings j o.speed))
          (sym k)
          (subst (λ asked. Suits i asked (interface_settings (some i) o.speed)) h.7
            (interface_settings-Suits i o.speed)))
        (unset (any_opt is_filter_nak opts) o.filter_naks h.0)
        (unset (any_opt is_filter_sof opts) o.filter_sofs h.1)
        (opened_debug o o.debug_pcap_filename
          ∙ ap (λ b. debug_of b o.debug_pcap_filename)
              (unset (any_opt is_overwrite opts) o.overwrite_debug_pcap h.2)
          ∙ ap (debug_of (any_opt is_overwrite opts)) h.6)

  ending-Agrees :
      (o : Options)
      → any_opt (is_invalid lib) opts ≡ false
      → Follows lib opts no_options o
      → Agrees (ending host o)
  unfolding ending
  ending-Agrees o valid h =
      let c = unset (any_opt is_capture opts) o.do_extcap_capture h.3 in
      elim (Bool-cases o.do_extcap_capture) [
        | inl on ↦
            subst
              (λ b.
                Agrees (if b then capture_from host o o.extcap_fifo o.extcap_interface else zero))
              (sym on)
              (capture_from-Agrees o o.extcap_fifo o.extcap_interface valid h (sym c ∙ on) refl
                refl)
        | inr off ↦
            subst
              (λ b.
                Agrees (if b then capture_from host o o.extcap_fifo o.extcap_interface else zero))
              (sym off) (valid, sym c ∙ off)
      ]

  main_with-Agrees :
      (r : Option Options) → Takes lib opts no_options r → Agrees (main_with host r).1
  main_with-Agrees none h = inl h
  main_with-Agrees (some o) h = ending-Agrees o h.0 h.1

  -- Whatever the command line: main returns -1 only if an option is refused or a capture is asked
  -- for, and 0 only if all options are taken and no capture is asked for. If it calls start_capture,
  -- then all options are taken and a capture is asked for: with the last fifo that was given, for the
  -- last interface, with the NAK filter and the SOF filter each exactly if its flag was given, and
  -- with the debug file that was asked for; with a link type that is the only one that is listed for
  -- this interface, or, for an interface with no listing, that of any speed; the speed is the link
  -- type's if it has one, and else the last one that was given, or high speed.
  pub ovextcap_main-Agrees : Agrees (ovextcap_main lib host opts).1
  unfolding ovextcap_main
  ovextcap_main-Agrees =
      main_with-Agrees (take_options lib opts no_options) (take_options-Takes lib opts no_options)
