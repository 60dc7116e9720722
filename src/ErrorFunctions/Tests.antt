-- ===== src/ErrorFunctions/Tests.antt =====
-- error_functions.c at a concrete error.
use linux_programming.Base.{arith, ◌≡◌, refl, true, [], none, some}
use linux_programming.Base.Int.{pos}
use linux_programming.Base.Bytes.{codes}
use linux_programming.ErrorFunctions.{
  Console, Errors, message, err_exit, err_exit_raw, err_exit_en, fatal,
}
use linux_programming.ErrorFunctions.Flush.{
  error_text, fatal_text, ends_with, after_flush, unflushed, err_exit-ends_with,
}

abbrev linux : Errors
linux = record {
  ename = λ e. some (codes "ENOENT");
  strerror = λ e. codes "No such file or directory";
}

abbrev console : Console
console = record { pending = codes "half a line"; written = [] }

no_file :
    message linux true (pos 2) (codes "open x")
    ≡ codes "ERROR [ENOENT No such file or directory] open x\n"
unfolding message
no_file = refl

err_exit-ends_with_example :
    (err_exit linux none (pos 2) (codes "open x") console
      ≡ ends_with none (
          after_flush console
            (error_text (codes "ENOENT") (codes "No such file or directory") (codes "open x"))))
    × (err_exit_en linux none (pos 2) (codes "open x") console
        ≡ ends_with none (
            after_flush console
              (error_text (codes "ENOENT") (codes "No such file or directory") (codes "open x"))))
    × (fatal linux none (codes "open x") console
        ≡ ends_with none (after_flush console (fatal_text (codes "open x"))))
    × (err_exit_raw linux none (pos 2) (codes "open x") console
        ≡ ends_with none (
            unflushed console
              (error_text (codes "ENOENT") (codes "No such file or directory") (codes "open x"))))
err_exit-ends_with_example =
    err_exit-ends_with linux none (pos 2) (codes "ENOENT") (codes "open x") console refl
      (omega arith) (omega arith)
