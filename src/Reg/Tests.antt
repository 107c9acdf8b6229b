-- ===== src/Reg/Tests.antt =====
-- Runs of the register map's reader of src/reg.c, and instances of what is proved of it.
use libopenvizsla.Prelude.{◌≡◌, refl, Bool, true, false}
use libopenvizsla.Reg.Text.{codes, strtoul}
use libopenvizsla.Reg.Map.{Load, refused, reg_init}
use libopenvizsla.Reg.Complete.{IsInitialized, reg_init-IsInitialized}

hex_example : strtoul (codes "  0x8fE rest") ≡ 0x8fe
unfolding strtoul
hex_example = refl

abbrev is_refused : Load → Bool
is_refused (refused reg) = true
is_refused _ = false

-- test_reg_from_map1 of test/reg.c
map1 : is_refused (reg_init (codes "LEDS_OUT = 0x42")) ≡ true
unfolding reg_init
map1 = refl

reg_init-IsInitialized_example : IsInitialized (reg_init (codes "LEDS_OUT = 0x42"))
reg_init-IsInitialized_example = reg_init-IsInitialized (codes "LEDS_OUT = 0x42")
