-- ===== src/MmapCopy.antt =====
-- CH49-Memory_Mappings/cp/cp.c: a copy through mappings of both files. A file is its bytes under its name; what the
-- calls return is an input.
pub mod Copied
mod Tests
use linux_programming.Base.{
  ℕ, ◌-◌, Bool, true, false, not, ◌&&◌, List, [], ◌∷◌, ◌++◌, Option, none, some, if◌then◌else◌,
  length, take, drop, replicate,
}
use linux_programming.Base.Bytes.{Bytes, codes}
use linux_programming.Libc.Str.{str_eq}

abbrev pub Files : Type 0
Files = Bytes → Option Bytes

abbrev pub store : Bytes → Bytes → Files → Files
store name bytes fs k = if str_eq k name then some bytes else fs k

abbrev pub contents : Option Bytes → Bytes
contents none = []
contents (some bytes) = bytes

-- Which calls succeed, where nothing in the files makes them fail.
pub record Calls : Type 0 where
  pub open_source : Bool
  pub fstat : Bool
  pub mmap_source : Bool
  pub close : Bool
  pub open_destination : Bool
  pub ftruncate : Bool
  pub mmap_destination : Bool
  pub munmap_source : Bool
  pub munmap_destination : Bool

-- The status of the exit, and the files.
pub record Result : Type 0 where
  pub status : ℕ
  pub files : Files

abbrev pub failure : Files → Result
failure fs = record { status = 1; files = fs }

-- ftruncate: what is beyond the size goes, and what is missing is NUL.
abbrev pub resize : ℕ → Bytes → Bytes
resize size bytes = take size bytes ++ replicate (size - length bytes) 0

-- open with O_CREAT, and ftruncate.
abbrev pub create : Bytes → Files → Files
create name fs = store name (contents (fs name)) fs

abbrev pub truncate : ℕ → Bytes → Files → Files
truncate size name fs = store name (resize size (contents (fs name))) fs

-- The mappings show the files, as they are then.
abbrev pub copy : ℕ → Bytes → Bytes → Files → Files
copy size source destination fs =
    store destination (take size (contents (fs source)) ++ drop size (contents (fs destination))) fs

abbrev pub with_destination : Calls → ℕ → Bytes → Bytes → Files → Result
with_destination c size source destination fs =
    if not c.open_destination
    then failure fs
    else if not c.ftruncate
    then failure (create destination fs)
    else (let fs' = truncate size destination (create destination fs) in
        if not c.mmap_destination then failure fs' else record {
          status = if c.munmap_source && c.munmap_destination then 0 else 1;
          files = copy size source destination fs';
        })

-- mmap fails for the size 0.
abbrev pub mapped : Bytes → Bool → Bool
mapped [] ok = false
mapped (b ∷ bytes) ok = ok

abbrev pub with_source : Calls → Bytes → Bytes → Option Bytes → Files → Result
with_source c source destination none fs = failure fs
with_source c source destination (some bytes) fs =
    if c.open_source && c.fstat && mapped bytes c.mmap_source && c.close
    then with_destination c (length bytes) source destination fs
    else failure fs

-- The arguments behind the name of the program.
unfoldable pub main : Calls → List Bytes → Files → Result
main c (source ∷ destination ∷ []) fs =
    if str_eq source (codes "--help")
    then failure fs
    else with_source c source destination (fs source) fs
main c _ fs = failure fs
