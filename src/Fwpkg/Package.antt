-- ===== src/Fwpkg/Package.antt =====
-- The functions of src/fwpkg.c, as they are built for Linux: the preloaded package is a buffer.
use libopenvizsla.Prelude.{ℕ, ◌-◌, ◌^◌, Option, none, some, String, Bytes}
use libopenvizsla.Fwpkg.Zip.{Zip}

-- `struct fwpkg`, with libzip's state. `pkg` is none for a null pointer. `error_str` is
-- none for a null pointer, and for a pointer to a text that is no longer valid.
pub record Fwpkg (lib : Zip) : Type 0 where
  pub pkg : Option lib.Archive
  pub map_index : ℕ
  pub bitstream_index : ℕ
  pub error_str : Option String
  pub world : lib.World

-- `(size_t)(-1)`
abbrev pub no_size : ℕ
no_size = 2 ^ 64 - 1

-- What a read gives: the bytes that it stores in the buffer, or -1.
pub data Read (lib : Zip) : Type 0 where
  read : Bytes → Fwpkg lib → Read lib
  not_read : Fwpkg lib → Read lib

-- What an initialisation gives: 0 or -1.
pub data Init (lib : Zip) : Type 0 where
  ready : Fwpkg lib → Init lib
  unready : Fwpkg lib → Init lib

module _ {lib : Zip} where
  abbrev pub in_world : lib.World → Fwpkg lib → Fwpkg lib
  in_world world fwpkg = record fwpkg { world = world }

  abbrev pub complain : String → Fwpkg lib → Fwpkg lib
  complain message fwpkg = record fwpkg { error_str = some message }

  -- Behind zip_fread: the file is closed whether the read failed or not. The message of a failure
  -- is the file's, and is not valid once the file is closed: what is left is no message.
  abbrev pub after_fread : lib.File → Option Bytes × lib.World → Fwpkg lib → Read lib
  after_fread file (none, w) fwpkg =
      not_read (record fwpkg { error_str = none; world = lib.fclose file w })
  after_fread file (some bytes, w) fwpkg = read bytes (in_world (lib.fclose file w) fwpkg)

  abbrev pub after_fopen : lib.Archive → ℕ → Option lib.File × lib.World → Fwpkg lib → Read lib
  after_fopen pkg size (none, w) fwpkg = not_read (complain (lib.strerror pkg w) (in_world w fwpkg))
  after_fopen pkg size (some file, w) fwpkg = after_fread file (lib.fread file size w) fwpkg

  -- A package that is used has been initialised: its pointer is not null.
  unfoldable pub fwpkg_read_file : lib.Archive → ℕ → ℕ → Fwpkg lib → Read lib
  fwpkg_read_file pkg size index fwpkg =
      after_fopen pkg size (lib.fopen_index pkg index fwpkg.world) fwpkg

  abbrev pub size_of : lib.Archive → Option (Option ℕ) × lib.World → Fwpkg lib → ℕ × Fwpkg lib
  size_of pkg (none, w) fwpkg = (no_size, complain (lib.strerror pkg w) (in_world w fwpkg))
  size_of pkg (some none, w) fwpkg =
      (no_size, complain "Can not read uncompressed size" (in_world w fwpkg))
  size_of pkg (some (some size), w) fwpkg = (size, in_world w fwpkg)

  unfoldable pub fwpkg_file_size : lib.Archive → ℕ → Fwpkg lib → ℕ × Fwpkg lib
  fwpkg_file_size pkg index fwpkg = size_of pkg (lib.stat_index pkg index fwpkg.world) fwpkg

  abbrev pub fwpkg_read_map : lib.Archive → ℕ → Fwpkg lib → Read lib
  fwpkg_read_map pkg size fwpkg = fwpkg_read_file pkg size fwpkg.map_index fwpkg

  abbrev pub fwpkg_read_bitstream : lib.Archive → ℕ → Fwpkg lib → Read lib
  fwpkg_read_bitstream pkg size fwpkg = fwpkg_read_file pkg size fwpkg.bitstream_index fwpkg

  abbrev pub fwpkg_map_size : lib.Archive → Fwpkg lib → ℕ × Fwpkg lib
  fwpkg_map_size pkg fwpkg = fwpkg_file_size pkg fwpkg.map_index fwpkg

  abbrev pub fwpkg_bitstream_size : lib.Archive → Fwpkg lib → ℕ × Fwpkg lib
  fwpkg_bitstream_size pkg fwpkg = fwpkg_file_size pkg fwpkg.bitstream_index fwpkg

  -- A name that is not found: the archive is discarded, and the pointer stays.
  abbrev pub give_up : lib.Archive → String → lib.World → Fwpkg lib → Init lib
  give_up pkg message w fwpkg = unready (complain message (in_world (lib.discard pkg w) fwpkg))

  abbrev pub bitstream_located : lib.Archive → Option ℕ × lib.World → Fwpkg lib → Init lib
  bitstream_located pkg (none, w) fwpkg =
      give_up pkg "Can not find ov3.bit file" w (record fwpkg { bitstream_index = no_size })
  bitstream_located pkg (some i, w) fwpkg =
      ready (in_world w (record fwpkg { bitstream_index = i }))

  abbrev pub map_located : lib.Archive → Option ℕ × lib.World → Fwpkg lib → Init lib
  map_located pkg (none, w) fwpkg =
      give_up pkg "Can not find map.txt file" w (record fwpkg { map_index = no_size })
  map_located pkg (some i, w) fwpkg =
      bitstream_located pkg (lib.name_locate pkg "ov3.bit" w)
        (record fwpkg { map_index = i; world = w })

  unfoldable pub fwpkg_locate_files : lib.Archive → Fwpkg lib → Init lib
  fwpkg_locate_files pkg fwpkg = map_located pkg (lib.name_locate pkg "map.txt" fwpkg.world) fwpkg

  -- `memset`
  abbrev pub blank : lib.World → Fwpkg lib
  blank w = record { pkg = none; map_index = 0; bitstream_index = 0; error_str = none; world = w }

  -- Behind zip_open and zip_open_from_source.
  unfoldable pub opened : Option lib.Archive × lib.World → Init lib
  opened (none, w) = unready (complain (lib.open_error w) (blank w))
  opened (some pkg, w) = fwpkg_locate_files pkg (record (blank w) { pkg = some pkg })

  unfoldable pub sourced : Option lib.Source × lib.World → Init lib
  sourced (none, w) = unready (complain (lib.open_error w) (blank w))
  sourced (some src, w) = opened (lib.open_from_source src w)

  unfoldable pub fwpkg_init_from_buffer : Bytes → Fwpkg lib → Init lib
  fwpkg_init_from_buffer buf fwpkg = sourced (lib.source_buffer_create buf fwpkg.world)

  unfoldable pub fwpkg_init_from_file : String → Fwpkg lib → Init lib
  fwpkg_init_from_file filename fwpkg = opened (lib.open_file filename fwpkg.world)

  -- `preload` are the bytes that the build puts into the library; no file name is a null pointer.
  unfoldable pub fwpkg_init : Bytes → Option String → Fwpkg lib → Init lib
  fwpkg_init preload none fwpkg = fwpkg_init_from_buffer preload fwpkg
  fwpkg_init preload (some filename) fwpkg = fwpkg_init_from_file filename fwpkg

  -- zip_discard does nothing with a null pointer.
  abbrev pub discard_pkg : Option lib.Archive → Fwpkg lib → Fwpkg lib
  discard_pkg none fwpkg = fwpkg
  discard_pkg (some pkg) fwpkg = in_world (lib.discard pkg fwpkg.world) fwpkg

  unfoldable pub fwpkg_destroy : Fwpkg lib → Fwpkg lib
  fwpkg_destroy fwpkg = discard_pkg fwpkg.pkg fwpkg
