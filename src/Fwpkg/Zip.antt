-- ===== src/Fwpkg/Zip.antt =====
-- What src/fwpkg.c calls of libzip: parameters, since that library is not part of the repository.
use libopenvizsla.Prelude.{ℕ, Option, String, Bytes}

-- A value of `World` is the state of libzip and of the file system. A call that returns a null
-- pointer or -1 gives none. `stat_index` gives the uncompressed size, if that is among the valid
-- fields. `fread` gives the bytes that it stores. A `String` comes from the functions that give
-- the message of the last error.
pub record Zip : Type 1 where
  pub World : Type 0
  pub Archive : Type 0
  pub File : Type 0
  pub Source : Type 0
  pub open_file : String → World → Option Archive × World
  pub open_error : World → String
  pub source_buffer_create : Bytes → World → Option Source × World
  pub open_from_source : Source → World → Option Archive × World
  pub discard : Archive → World → World
  pub name_locate : Archive → String → World → Option ℕ × World
  pub stat_index : Archive → ℕ → World → Option (Option ℕ) × World
  pub fopen_index : Archive → ℕ → World → Option File × World
  pub fread : File → ℕ → World → Option Bytes × World
  pub fclose : File → World → World
  pub strerror : Archive → World → String
