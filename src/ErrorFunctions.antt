-- ===== src/ErrorFunctions.antt =====
-- CH44-Pipes_and_FIFOs/seqnum_with_backup/error_functions.c: messages on stderr and the ends of a program.
-- The names of the errors (a generated table) and strerror are parameters; `format` with its arguments is
-- the text that they stand for.
pub mod Flush
mod Tests
use linux_programming.Base.{
  ℕ, Bool, true, false, List, [], ◌∷◌, ◌++◌, Option, none, some, if◌then◌else◌, take,
}
use linux_programming.Base.Int.{ℤ}
use linux_programming.Base.Bytes.{Bytes, codes}

-- A write to the descriptor of stdout, or to that of stderr.
pub data Written : Type 0 where
  to_out to_err : Bytes → Written

-- What stdio holds back for stdout, and what has been written, in its order.
pub record Console : Type 0 where
  pub pending : Bytes
  pub written : List Written

-- Nothing is written where stdio holds nothing back.
abbrev pub flushed : Bytes → List Written
flushed [] = []
flushed (b ∷ bs) = to_out (b ∷ bs) ∷ []

abbrev pub flush : Console → Console
flush c = record { pending = []; written = c.written ++ flushed c.pending }

abbrev pub write_err : Bytes → Console → Console
write_err text c = record c { written = c.written ++ to_err text ∷ [] }

-- exit flushes stdout, _exit and abort do not.
pub data Ended : Type 0 where
  exited : ℕ → Console → Ended
  aborted : Console → Ended

abbrev pub exit_failure : Console → Ended
exit_failure c = exited 1 (flush c)

-- `ef_dumpcore` is the environment variable EF_DUMPCORE.
unfoldable pub terminate : Option Bytes → Bool → Console → Ended
terminate (some (x ∷ s)) use_exit3 c = aborted c
terminate (some []) use_exit3 c = if use_exit3 then exit_failure c else exited 1 c
terminate none use_exit3 c = if use_exit3 then exit_failure c else exited 1 c

-- The texts are cut to the 500 bytes of their buffers, a NUL included.
abbrev pub fit : Bytes → Bytes
fit text = take 499 text

-- The table holds names from 1 to MAX_ENAME.
pub record Errors : Type 0 where
  pub ename : ℤ → Option Bytes
  pub strerror : ℤ → Bytes

abbrev pub name_or_unknown : Option Bytes → Bytes
name_or_unknown none = codes "?UNKNOWN?"
name_or_unknown (some name) = name

module _ (errors : Errors) where
  unfoldable pub message : Bool → ℤ → Bytes → Bytes
  message use_err err format =
      let err_text =
        if use_err
        then fit (
            codes " ["
            ++ name_or_unknown (errors.ename err)
            ++ codes " "
            ++ errors.strerror err
            ++ codes "]")
        else codes ":" in
      fit (codes "ERROR" ++ err_text ++ codes " " ++ fit format ++ codes "\n")

  unfoldable pub output_error : Bool → ℤ → Bool → Bytes → Console → Console
  output_error use_err err flush_stdout format c =
      write_err (message use_err err format) (if flush_stdout then flush c else c)

  -- errMsg: the console and errno, which is set from a variable that is never assigned.
  unfoldable pub err_msg : ℤ → ℤ → Bytes → Console → Console × ℤ
  err_msg errno saved_errno format c = (output_error true errno true format c, saved_errno)

  -- errExit.
  unfoldable pub err_exit : Option Bytes → ℤ → Bytes → Console → Ended
  err_exit ef_dumpcore errno format c =
      terminate ef_dumpcore true (output_error true errno true format c)

  -- err_exit.
  unfoldable pub err_exit_raw : Option Bytes → ℤ → Bytes → Console → Ended
  err_exit_raw ef_dumpcore errno format c =
      terminate ef_dumpcore false (output_error true errno false format c)

  unfoldable pub err_exit_en : Option Bytes → ℤ → Bytes → Console → Ended
  err_exit_en ef_dumpcore errnum format c =
      terminate ef_dumpcore true (output_error true errnum true format c)

  unfoldable pub fatal : Option Bytes → Bytes → Console → Ended
  fatal ef_dumpcore format c =
      terminate ef_dumpcore true (output_error false (ℤ.pos 0) true format c)

unfoldable pub usage_err : Bytes → Console → Ended
usage_err format c = exit_failure (write_err format (write_err (codes "Usage: ") (flush c)))

unfoldable pub cmd_line_err : Bytes → Console → Ended
cmd_line_err format c =
    exit_failure (write_err format (write_err (codes "Command-line usage error: ") (flush c)))
