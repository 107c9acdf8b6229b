-- ===== src/Reg/Complete.antt =====
-- What reg_init of src/reg.c leaves in the register map, whatever it reads.
use libopenvizsla.Prelude.{
  ℕ, zero, suc, ◌^◌, ◌<◌, ◌≡◌, ◌≢◌, refl, ◌∙◌, ltb, ltb→lt, ◌==◌, true, Bool-cases, inl, inr,
  Option, none, some, List, [], ◌∷◌, Bytes, length, length-set, set, arith,
}
use libopenvizsla.Reg.State.{RegName, reg_index, Reg}
use libopenvizsla.Reg.Text.{split_at, strtok, strtoul}
use libopenvizsla.Reg.Map.{
  Load, loaded, refused, aborted, put, in_word_set, reg_from_pair, with_key, with_sides,
  reg_from_line, is_complete, reg_validate, lines, line_done, map_loop, unset_reg, reg_init,
}

abbrev pub AllBelow : ℕ → List ℕ → Type 0
AllBelow n [] = Unit
AllBelow n (a ∷ rest) = (a < n) × AllBelow n rest

-- The map has its 15 entries of 16 bits.
abbrev HasEntries : Reg → Type 0
HasEntries reg = (length reg.addr ≡ 15) × AllBelow (2 ^ 16) reg.addr

abbrev Keeps : Load → Type 0
Keeps (loaded reg) = HasEntries reg
Keeps (refused reg) = Unit
Keeps aborted = Unit

-- After a success every register has an address below 0xffff; after a failure there is a message.
abbrev pub IsInitialized : Load → Type 0
IsInitialized (loaded reg) = (length reg.addr ≡ 15) × AllBelow 0xffff reg.addr
IsInitialized (refused reg) = reg.error_str ≢ none
IsInitialized aborted = Unit

AllBelow-set :
    (n : ℕ) (addrs : List ℕ) (i v : ℕ) → v < n → AllBelow n addrs → AllBelow n (set addrs i v)
AllBelow-set n [] i v h k = tt
AllBelow-set n (a ∷ rest) zero v h k = (h, k.1)
AllBelow-set n (a ∷ rest) (suc i) v h k = (k.0, AllBelow-set n rest i v h k.1)

put-HasEntries :
    (reg : Reg) (v : ℕ) (name : Option RegName)
    → v < 0xffff
    → HasEntries reg
    → HasEntries (put reg v name)
put-HasEntries reg v none h k = k
put-HasEntries reg v (some name) h k = (
  length-set reg.addr (reg_index name) v ∙ k.0,
  AllBelow-set (2 ^ 16) reg.addr (reg_index name) v (omega arith) k.1,
)

pair-Keeps : (reg : Reg) (key : Bytes) (v : ℕ) → HasEntries reg → Keeps (reg_from_pair reg key v)
unfolding reg_from_pair
pair-Keeps reg key v h = elim (Bool-cases (ltb v 0xffff)) [
  | inl low ↦ rw low (put-HasEntries reg v (in_word_set key) (ltb→lt v 0xffff low) h)
  | inr high ↦ rw high tt
]

key-Keeps :
    (reg : Reg) (key : Option Bytes) (value : Bytes)
    → HasEntries reg
    → Keeps (with_key reg key value)
key-Keeps reg none value h = tt
key-Keeps reg (some key) value h = pair-Keeps reg key (strtoul value) h

sides-Keeps :
    (reg : Reg) (sides : Bytes × Option Bytes) → HasEntries reg → Keeps (with_sides reg sides)
sides-Keeps reg (key, none) h = tt
sides-Keeps reg (key, some value) h = key-Keeps reg (strtok key) value h

line-Keeps : (reg : Reg) (line : Bytes) → HasEntries reg → Keeps (reg_from_line reg line)
unfolding reg_from_line
line-Keeps reg [] h = h
line-Keeps reg (c ∷ cs) h = elim (Bool-cases (c == b'#')) [
  | inl comment ↦ rw comment h
  | inr other ↦ rw other (sides-Keeps reg (split_at b'=' (c ∷ cs)) h)
]

complete-AllBelow :
    (addrs : List ℕ) → AllBelow (2 ^ 16) addrs → is_complete addrs ≡ true → AllBelow 0xffff addrs
unfolding is_complete
complete-AllBelow [] h k = tt
complete-AllBelow (a ∷ rest) h k = ground (arith, complete-AllBelow rest h.1)

validate-IsInitialized : (reg : Reg) → HasEntries reg → IsInitialized (reg_validate reg)
unfolding reg_validate
validate-IsInitialized reg h = elim (Bool-cases (is_complete reg.addr)) [
  | inl whole ↦ rw whole (h.0, complete-AllBelow reg.addr h.1 whole)
  | inr part ↦ rw part (λ e. ground arith)
]

done-IsInitialized :
    (rest : Reg → Load) (l : Load)
    → Keeps l
    → ((reg : Reg) → HasEntries reg → IsInitialized (rest reg))
    → IsInitialized (line_done rest l)
done-IsInitialized rest (loaded reg) h k = k reg h
done-IsInitialized rest (refused reg) h k = λ e. ground arith
done-IsInitialized rest aborted h k = tt

map_loop-IsInitialized :
    (ls : List Bytes) (reg : Reg) → HasEntries reg → IsInitialized (map_loop ls reg)
unfolding map_loop
map_loop-IsInitialized [] reg h = validate-IsInitialized reg h
map_loop-IsInitialized (l ∷ ls) reg h =
    done-IsInitialized (map_loop ls) (reg_from_line reg l) (line-Keeps reg l h)
      (map_loop-IsInitialized ls)

-- Whatever text reg_init reads: when it returns 0, the map has 15 addresses and each is below
-- 0xffff, so that no register was missed; when it returns -1, an error message is set.
pub reg_init-IsInitialized : (map : Bytes) → IsInitialized (reg_init map)
unfolding reg_init
reg_init-IsInitialized map = map_loop-IsInitialized (lines map) unset_reg (refl, omega arith)
