-- ===== src/Fwpkg/Tests.antt =====
-- A firmware package on which src/fwpkg.c runs, and instances of what is proved of it.
use libopenvizsla.Prelude.{
  ℕ, suc, ◌-◌, ◌==◌, ◌≡◌, refl, true, if◌then◌else◌, none, some, [], ◌∷◌, Bytes, length, take,
  arith, same_bytes,
}
use libopenvizsla.Reg.Text.{codes}
use libopenvizsla.Reg.Map.{reg_init}
use libopenvizsla.Fwpkg.Zip.{Zip}
use libopenvizsla.Fwpkg.Package.{
  Fwpkg, Init, ready, unready, fwpkg_locate_files, opened, fwpkg_init_from_file, fwpkg_init,
}
use libopenvizsla.Fwpkg.Init.{reg_init_from_fwpkg, zero_reg}
use libopenvizsla.Fwpkg.Reading.{Holds, CameTo, reg_init_from_fwpkg-reg_init}
use libopenvizsla.Fwpkg.Archives.{Counts, IsBalanced, fwpkg_init-IsBalanced}

abbrev map_text : Bytes
map_text = codes "LEDS_OUT = 0x42"

abbrev text_at : ℕ → Bytes
text_at i = if i == 0 then map_text else 0xff ∷ []

-- Two files; the world is the number of open archives.
abbrev two_files : Zip
two_files = record {
  World = ℕ;
  Archive = Unit {0};
  File = Bytes;
  Source = Unit {0};
  open_file = λ name w. (some tt, suc w);
  open_error = λ w. "Can't open file";
  source_buffer_create = λ buf w. (some tt, w);
  open_from_source = λ src w. (some tt, suc w);
  discard = λ pkg w. w - 1;
  name_locate =
      λ pkg name w. (some (if same_bytes (codes name) (codes "map.txt") then 0 else 1), w);
  stat_index = λ pkg i w. (some (some (length (text_at i))), w);
  fopen_index = λ pkg i w. (some (text_at i), w);
  fread = λ file n w. (some (take n file), w);
  fclose = λ file w. w;
  strerror = λ pkg w. "Unknown error";
}

abbrev bundle : Fwpkg two_files
bundle = record { pkg = some tt; map_index = 0; bitstream_index = 1; error_str = none; world = 1 }

abbrev indices : Init two_files → ℕ × ℕ
indices (ready fwpkg) = (fwpkg.map_index, fwpkg.bitstream_index)
indices (unready fwpkg) = (2, 2)

located : indices (fwpkg_init [] (some "ov3.fwpkg") bundle) ≡ (0, 1)
unfolding fwpkg_init fwpkg_init_from_file opened fwpkg_locate_files same_bytes
located = refl

bundle-Holds : Holds two_files tt 0 map_text
bundle-Holds = record { sized = λ w. refl; opens = λ w size. refl }

reg_init_from_fwpkg-reg_init_example :
    CameTo (reg_init map_text) (reg_init_from_fwpkg (λ n. true) zero_reg tt bundle)
reg_init_from_fwpkg-reg_init_example =
    reg_init_from_fwpkg-reg_init (λ n. true) zero_reg tt map_text
      (
        refl,
        (
          refl,
          (
            refl,
            (
              refl,
              (
                refl,
                (refl, (refl, (refl, (refl, (refl, (refl, (refl, (refl, (refl, (refl, tt)))))))))),
              ),
            ),
          ),
        ),
      )
      bundle bundle-Holds (omega arith) refl

two_files-Counts : Counts two_files (λ w. w)
two_files-Counts = record {
  opening = λ name w. refl;
  sourcing = λ src w. refl;
  buffering = λ buf w. refl;
  locating = λ pkg name w. refl;
  discarding = λ pkg w n h. omega arith;
}

fwpkg_init-IsBalanced_example :
    IsBalanced
      (λ w. w)
      two_files-Counts
      0
      (fwpkg_init [] (some "ov3.fwpkg") (record bundle { world = 0 }))
fwpkg_init-IsBalanced_example =
    fwpkg_init-IsBalanced (λ w. w) two_files-Counts [] (some "ov3.fwpkg")
      (record bundle { world = 0 })
