-- ===== src/SparseCopy.antt =====
-- CH04-FILE_IO/cp_sparse/cp_sparse.c: a copy that leaves holes for runs of NUL bytes.
-- The kernel's part is given: the results of `open`, `read` and `close`, and which one-byte writes
-- succeed (`writes off`, at file offset `off`).
pub mod Holes
mod Tests
use linux_programming.Base.{
  ℕ, zero, suc, ◌+◌, ◌-◌, ◌%◌, ◌^◌, Bool, true, false, ◌&&◌, not, List, [], ◌∷◌, Option, none, some,
  ltb, leb, ◌==◌, if◌then◌else◌,
}
use linux_programming.Base.Bytes.{Bytes}

-- An open file: its contents and the file offset.
pub record OutFile : Type 0 where
  pub contents : Bytes
  pub off : ℕ

-- A byte put at an offset; a gap behind the end reads as NUL bytes.
abbrev pub put : Bytes → ℕ → ℕ → Bytes
put [] zero b = b ∷ []
put [] (suc i) b = 0 ∷ put [] i b
put (x ∷ xs) zero b = b ∷ xs
put (x ∷ xs) (suc i) b = x ∷ put xs i b

-- `lseek(fd, n, SEEK_CUR)` with `n` a size_t turned into a signed off_t. A call that fails leaves
-- the offset alone.
lseek_cur : OutFile → ℕ → OutFile
lseek_cur f n =
    if ltb n (2 ^ 63)
    then (if ltb (f.off + n) (2 ^ 63) then record f { off = f.off + n } else f)
    else (if leb (2 ^ 64) (f.off + n) then record f { off = f.off + n - 2 ^ 64 } else f)

-- `write(fd, &b, 1)`.
write_byte : (ℕ → Bool) → OutFile → ℕ → OutFile
write_byte writes f b =
    if writes f.off then record { contents = put f.contents f.off b; off = f.off + 1 } else f

-- The variables of the copy loop.
pub record Copy : Type 0 where
  pub out : OutFile
  pub null_seq_len : ℕ

pub copy_byte : (ℕ → Bool) → Copy → ℕ → Copy
unfolding lseek_cur write_byte
copy_byte writes c b =
    if b == 0
    then record c { null_seq_len = (c.null_seq_len + 1) % 2 ^ 64 }
    else if ltb 0 c.null_seq_len
    then record { out = write_byte writes (lseek_cur c.out c.null_seq_len) b; null_seq_len = 0 }
    else record c { out = write_byte writes c.out b }

-- The `for` loop over the buffer.
pub copy_buffer : (ℕ → Bool) → Copy → Bytes → Copy
unfolding copy_byte
copy_buffer writes c [] = c
copy_buffer writes c (b ∷ bs) = copy_buffer writes (copy_byte writes c b) bs

-- What `read` delivers: some bytes (none at end of file), or a failure.
pub data Read : Type 0 where
  got : Bytes → Read
  failed : Read

-- The `while` loop ends at end of file and at a failure alike. After the listed reads the file ends.
pub copy_loop : (ℕ → Bool) → Copy → List Read → Copy
unfolding copy_buffer
copy_loop writes c [] = c
copy_loop writes c (failed ∷ rs) = c
copy_loop writes c (got [] ∷ rs) = c
copy_loop writes c (got (b ∷ bs) ∷ rs) = copy_loop writes (copy_buffer writes c (b ∷ bs)) rs

-- How the program ends, with what it has written.
pub data Outcome : Type 0 where
  usage : Outcome
  open_source_failed open_destination_failed : Outcome
  close_input_failed close_output_failed : Copy → Outcome
  success : Copy → Outcome

-- The environment of a run. `junk` is the value that `nullSeqLen` starts with: the source does not
-- initialise it.
pub record Env : Type 0 where
  pub argc : ℕ
  pub first_is_help : Bool
  pub source_opens : Bool
  pub destination_opens : Bool
  pub junk : ℕ
  pub writes : ℕ → Bool
  pub reads : List Read
  pub source_closes : Bool
  pub destination_closes : Bool

pub main : Env → Outcome
unfolding copy_loop
main e =
    if not (e.argc == 3) && e.first_is_help
    then usage
    else if not e.source_opens
    then open_source_failed
    else if not e.destination_opens
    then open_destination_failed
    else let c =
        copy_loop e.writes
          (record { out = record { contents = []; off = 0 }; null_seq_len = e.junk }) e.reads in
      if not e.source_closes
      then close_input_failed c
      else if not e.destination_closes
      then close_output_failed c
      else success c
