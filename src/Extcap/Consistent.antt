-- ===== src/Extcap/Consistent.antt =====
-- What tools/ovextcap/main.c lists for an interface, and what it captures with.
use libopenvizsla.Prelude.{
  ℕ, ◌≡◌, refl, ap, ◌⊎◌, ◌==◌, ==_iff, ◌&&◌, Bool, true, false, Bool-cases, inl, inr, if◌then◌else◌,
  some, String, List, [], ◌∷◌, ◌++◌, Bytes, same_bytes,
}
use libopenvizsla.Reg.Text.{codes}
use libopenvizsla.Cha.Ulpi.{UsbSpeed, low_speed, full_speed, high_speed}
use libopenvizsla.Extcap.Options.{is_same}
use libopenvizsla.Extcap.Listing.{
  text, number, Line, print_extcap_dlts, extcap_interface_deprecated, extcap_interface_low_speed,
  extcap_interface_full_speed, extcap_interface_high_speed,
}
use libopenvizsla.Extcap.Main.{interface_settings}

both_true : (a b : Bool) → (a && b) ≡ true → (a ≡ true) × (b ≡ true)
both_true true b h = (refl, h)
both_true false b h = absurd (cc)

same_bytes-eq : (xs ys : Bytes) → same_bytes xs ys ≡ true → xs ≡ ys
unfolding same_bytes
same_bytes-eq [] [] h = refl
same_bytes-eq [] (y ∷ ys) h = absurd (cc)
same_bytes-eq (x ∷ xs) [] h = absurd (cc)
same_bytes-eq (x ∷ xs) (y ∷ ys) h =
    let (first, rest) = both_true (x == y) (same_bytes xs ys) h in
    let e : x ≡ y = (==_iff x y).0 first in rw e (ap (λ t. y ∷ t) (same_bytes-eq xs ys rest))

-- The numbers in the lines.
abbrev pub numbers : Line → List ℕ
numbers [] = []
numbers (text t ∷ ps) = numbers ps
numbers (number n ∷ ps) = n ∷ numbers ps

abbrev pub all_numbers : List Line → List ℕ
all_numbers [] = []
all_numbers (l ∷ ls) = numbers l ++ all_numbers ls

-- The speed that a link type stands for, if it stands for one.
abbrev pub speed_for : ℕ → UsbSpeed → UsbSpeed
speed_for linktype speed =
    if linktype == 293
    then low_speed
    else if linktype == 294
    then full_speed
    else if linktype == 295
    then high_speed
    else speed

-- The link type is the only one that is listed for the interface, or none is, and it is that of any
-- speed. The speed is the link type's, or the one asked for.
abbrev pub Suits : String → UsbSpeed → ℕ × UsbSpeed → Type 0
Suits i asked (linktype, speed) =
    ((all_numbers (print_extcap_dlts i) ≡ linktype ∷ [])
      ⊎ ((all_numbers (print_extcap_dlts i) ≡ []) × (linktype ≡ 288)))
    × (speed ≡ speed_for linktype asked)

pub interface_settings-Suits :
    (i : String) (asked : UsbSpeed) → Suits i asked (interface_settings (some i) asked)
unfolding interface_settings same_bytes
interface_settings-Suits i asked = elim (Bool-cases (is_same i extcap_interface_deprecated)) [
  | inl e ↦ rw (same_bytes-eq (codes i) (codes extcap_interface_deprecated) e) (inl refl, refl)
  | inr e ↦ elim (Bool-cases (is_same i extcap_interface_low_speed)) [
    | inl e1 ↦ rw (same_bytes-eq (codes i) (codes extcap_interface_low_speed) e1) (inl refl, refl)
    | inr e1 ↦ elim (Bool-cases (is_same i extcap_interface_full_speed)) [
      | inl e2 ↦
          rw (same_bytes-eq (codes i) (codes extcap_interface_full_speed) e2) (inl refl, refl)
      | inr e2 ↦ elim (Bool-cases (is_same i extcap_interface_high_speed)) [
        | inl e3 ↦
            rw (same_bytes-eq (codes i) (codes extcap_interface_high_speed) e3) (inl refl, refl)
        | inr e3 ↦ rw (e, e1, e2, e3) (inr (refl, refl), refl)
      ]
    ]
  ]
]
