-- ===== src/Cha/Ulpi.antt =====
-- The functions of src/cha.c that reach the USB transceiver's registers over ULPI, and the USB
-- speed, which is one of those registers.
use libopenvizsla.Prelude.{
  ℕ, zero, suc, bit_and, bit_or, ◌==◌, Bool, not, if◌then◌else◌, waiting, pure, ◌>>=◌, ◌>>◌,
}
use libopenvizsla.Ftdi.{Ftdi}
use libopenvizsla.Reg.State.{RegName, ucfg_wdata, ucfg_wcmd, ucfg_rdata, ucfg_rcmd}
use libopenvizsla.Cha.State.{ChaAction, fail}
use libopenvizsla.Cha.Registers.{cha_write_reg_by_name, cha_read_reg_by_name}

abbrev pub ucfg_reg_addrmask : ℕ
ucfg_reg_addrmask = 0x3f

abbrev pub ucfg_reg_go : ℕ
ucfg_reg_go = 0x80

-- `tmp & UCFG_REG_GO`
abbrev pub is_going : ℕ → Bool
is_going tmp = not (bit_and tmp ucfg_reg_go == 0)

-- `UCFG_REG_GO | (addr & UCFG_REG_ADDRMASK)`
abbrev pub command : ℕ → ℕ
command addr = bit_or ucfg_reg_go (bit_and addr ucfg_reg_addrmask)

-- `enum ov_usb_speed`
pub data UsbSpeed : Type 0 where
  low_speed full_speed high_speed : UsbSpeed

abbrev pub speed_code : UsbSpeed → ℕ
speed_code low_speed = 0x4a
speed_code full_speed = 0x49
speed_code high_speed = 0x48

module _ (lib : Ftdi) (rounds : ℕ) where
  -- `do { … } while (tmp & UCFG_REG_GO)`
  unfoldable pub go_loop : ℕ → RegName → ChaAction lib (Unit {0})
  unfolding cha_read_reg_by_name
  go_loop zero name = waiting
  go_loop (suc fuel) name = cha_read_reg_by_name lib rounds name >>= λ tmp.
      let rest = go_loop fuel name in if is_going tmp then rest else pure tt

  unfoldable pub cha_write_ulpi : ℕ → ℕ → ChaAction lib (Unit {0})
  unfolding cha_write_reg_by_name go_loop
  cha_write_ulpi addr val = do
    cha_write_reg_by_name lib rounds ucfg_wdata val
    cha_write_reg_by_name lib rounds ucfg_wcmd (command addr)
    go_loop rounds ucfg_wcmd

  unfoldable pub cha_read_ulpi : ℕ → ChaAction lib ℕ
  unfolding cha_write_reg_by_name cha_read_reg_by_name go_loop
  cha_read_ulpi addr = do
    cha_write_reg_by_name lib rounds ucfg_rcmd (command addr)
    go_loop rounds ucfg_rcmd
    cha_read_reg_by_name lib rounds ucfg_rdata

  -- The `switch` over the code that was read.
  abbrev pub speed_of : ℕ → ChaAction lib UsbSpeed
  speed_of wdata =
      if wdata == 0x4a
      then pure low_speed
      else if wdata == 0x49
      then pure full_speed
      else if wdata == 0x48
      then pure high_speed
      else fail "Invalid USB speed code"

  unfoldable pub cha_get_usb_speed : ChaAction lib UsbSpeed
  unfolding cha_read_ulpi
  cha_get_usb_speed = cha_read_ulpi 0x04 >>= speed_of

  unfoldable pub cha_set_usb_speed : UsbSpeed → ChaAction lib (Unit {0})
  unfolding cha_write_ulpi
  cha_set_usb_speed speed = cha_write_ulpi 0x04 (speed_code speed)
