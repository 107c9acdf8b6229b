-- ===== src/Cha/Message.antt =====
-- The five bytes of a transaction with the FPGA, and their checksum.
use libopenvizsla.Prelude.{ℕ, ◌+◌, ◌/◌, ◌%◌, ◌^◌, [], ◌∷◌, Bytes, take, set}

abbrev checksum_from : ℕ → Bytes → ℕ
checksum_from ret [] = ret
checksum_from ret (b ∷ bs) = checksum_from ((ret + b) % 2 ^ 8) bs

unfoldable pub cha_transaction_checksum : Bytes → ℕ → ℕ
cha_transaction_checksum buf size = checksum_from 0 (take size buf)

-- `msg[4] = cha_transaction_checksum(msg, 4)`
unfoldable pub with_checksum : Bytes → Bytes
unfolding cha_transaction_checksum
with_checksum msg = set msg 4 (cha_transaction_checksum msg 4)

-- `{0x55, addr >> 8, addr & 0xFF, val, 0x00}`, with its checksum
unfoldable pub message : ℕ → ℕ → Bytes
unfolding with_checksum
message addr val = with_checksum (0x55 ∷ (addr / 2 ^ 8) ∷ (addr % 2 ^ 8) ∷ val ∷ 0 ∷ [])
