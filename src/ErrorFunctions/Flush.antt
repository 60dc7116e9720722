-- ===== src/ErrorFunctions/Flush.antt =====
-- What becomes of pending output and of the message in error_functions.c.
use linux_programming.Base.{
  ◌<◌, ◌≤◌, ◌≡◌, refl, ap, ap₂, ◌∙◌, true, false, [], ◌∷◌, ◌++◌, append_assoc, append-nil, Option,
  none, some, arith, length, length-append, take_short,
}
use linux_programming.Base.Int.{ℤ}
use linux_programming.Base.Bytes.{Bytes, codes}
use linux_programming.ErrorFunctions.{
  to_err, Console, flush, write_err, flushed, Ended, exited, aborted, Errors, fit, name_or_unknown,
  terminate, message, output_error, err_exit, err_exit_raw, err_exit_en, fatal,
}

-- The text for an error with a name and a description, and the one without an error.
abbrev pub error_text : Bytes → Bytes → Bytes → Bytes
error_text name description text =
    codes "ERROR ["
    ++ (name ++ (codes " " ++ (description ++ (codes "] " ++ (text ++ codes "\n")))))

abbrev pub fatal_text : Bytes → Bytes
fatal_text text = codes "ERROR: " ++ (text ++ codes "\n")

-- A core dump where EF_DUMPCORE is set to a string that is not empty, else the status 1.
abbrev pub ends_with : Option Bytes → Console → Ended
ends_with (some (x ∷ s)) c = aborted c
ends_with (some []) c = exited 1 c
ends_with none c = exited 1 c

-- First what stdio has held back is written to stdout, then the text to stderr.
abbrev pub after_flush : Console → Bytes → Console
after_flush c text = record {
  pending = [];
  written = c.written ++ (flushed c.pending ++ to_err text ∷ []);
}

-- Only the text is written.
abbrev pub unflushed : Console → Bytes → Console
unflushed c text = record c { written = c.written ++ to_err text ∷ [] }

fit_short : (text : Bytes) → length text < 500 → fit text ≡ text
fit_short text h = take_short 499 text (omega arith)

-- The pieces of a message.
abbrev line : Bytes → Bytes → Bytes
line inner text = codes "ERROR" ++ inner ++ codes " " ++ text ++ codes "\n"

length-line :
    (inner text : Bytes)
    → (length inner ≤ length (line inner text)) × (length text ≤ length (line inner text))
length-line inner text =
    let front = codes "ERROR" ++ inner ++ codes " " in
    let a = length-append (front ++ text) (codes "\n") in
    let b = length-append front text in
    let c = length-append (codes "ERROR" ++ inner) (codes " ") in
    let d = length-append (codes "ERROR") inner in
    (omega (arith, a, b, c, d), omega (arith, a, b, c, d))

-- Where the line fits the buffers nothing is cut off.
line_fits :
    (inner text whole : Bytes)
    → line inner text ≡ whole
    → length whole < 500
    → fit (line (fit inner) (fit text)) ≡ whole
line_fits inner text whole e h =
    let (small_inner, small_text) = length-line inner text in
    let size = ap length e in
    let at_inner = fit_short inner (omega (arith, small_inner, size)) in
    let at_text = fit_short text (omega (arith, small_text, size)) in
    ap₂ (λ x y. fit (line x y)) at_inner at_text ∙ ap fit e ∙ fit_short whole h

abbrev bracket : Option Bytes → Bytes → Bytes
bracket name description =
    codes " [" ++ name_or_unknown name ++ codes " " ++ description ++ codes "]"

message-error_text :
    (errors : Errors) (errno : ℤ) (name text : Bytes)
    → errors.ename errno ≡ some name
    → length (error_text name (errors.strerror errno) text) < 500
    → message errors true errno text ≡ error_text name (errors.strerror errno) text
unfolding message
message-error_text errors errno name text known h =
    let description = errors.strerror errno in
    ap (λ n. fit (line (fit (bracket n description)) (fit text))) known
    ∙ line_fits (bracket (some name) description) text (error_text name description text)
        (simp append_assoc) h

message-fatal_text :
    (errors : Errors) (text : Bytes)
    → length (fatal_text text) < 500
    → message errors false (ℤ.pos 0) text ≡ fatal_text text
unfolding message
message-fatal_text errors text h = line_fits (codes ":") text (fatal_text text) refl h

-- Behind the output of a message, with the flush of stdout before it.
terminate-ends_with :
    (ef_dumpcore : Option Bytes) (c : Console) (text : Bytes)
    → terminate ef_dumpcore true (write_err text (flush c))
      ≡ ends_with ef_dumpcore (after_flush c text)
unfolding terminate
terminate-ends_with (some (x ∷ s)) c text =
    ap (λ w. aborted (record { pending = []; written = w }))
      (append_assoc c.written (flushed c.pending) (to_err text ∷ []))
terminate-ends_with (some []) c text =
    ap (λ w. exited 1 (record { pending = []; written = w }))
      (append-nil _ ∙ append_assoc c.written (flushed c.pending) (to_err text ∷ []))
terminate-ends_with none c text =
    ap (λ w. exited 1 (record { pending = []; written = w }))
      (append-nil _ ∙ append_assoc c.written (flushed c.pending) (to_err text ∷ []))

terminate-raw :
    (ef_dumpcore : Option Bytes) (c : Console)
    → terminate ef_dumpcore false c ≡ ends_with ef_dumpcore c
unfolding terminate
terminate-raw (some (x ∷ s)) c = refl
terminate-raw (some []) c = refl
terminate-raw none c = refl

-- For an error that the table has, with a text that fits the buffers: errExit and errExitEN first write what
-- stdout has held back, then "ERROR [name description] text" to stderr; fatal does the same with
-- "ERROR: text"; err_exit writes the text of errExit, and what stdout has held back is not written. Then
-- they end the program: with a core dump where EF_DUMPCORE is set to a string that is not empty, else with
-- the status 1.
pub err_exit-ends_with :
    (errors : Errors) (ef_dumpcore : Option Bytes) (errno : ℤ) (name text : Bytes) (c : Console)
    → errors.ename errno ≡ some name
    → length (error_text name (errors.strerror errno) text) < 500
    → length (fatal_text text) < 500
    → (err_exit errors ef_dumpcore errno text c
        ≡ ends_with ef_dumpcore (after_flush c (error_text name (errors.strerror errno) text)))
      × (err_exit_en errors ef_dumpcore errno text c
          ≡ ends_with ef_dumpcore (after_flush c (error_text name (errors.strerror errno) text)))
      × (fatal errors ef_dumpcore text c ≡ ends_with ef_dumpcore (after_flush c (fatal_text text)))
      × (err_exit_raw errors ef_dumpcore errno text c
          ≡ ends_with ef_dumpcore (unflushed c (error_text name (errors.strerror errno) text)))
unfolding err_exit err_exit_en fatal err_exit_raw output_error
err_exit-ends_with errors ef_dumpcore errno name text c known h h' =
    let e = message-error_text errors errno name text known h in
    let shown = error_text name (errors.strerror errno) text in
    let f = message-fatal_text errors text h' in
    let flushing = λ (m : Bytes). terminate ef_dumpcore true (write_err m (flush c)) in
    (
      ap flushing e ∙ terminate-ends_with ef_dumpcore c shown,
      ap flushing e ∙ terminate-ends_with ef_dumpcore c shown,
      ap flushing f ∙ terminate-ends_with ef_dumpcore c (fatal_text text),
      ap (λ m. terminate ef_dumpcore false (write_err m c)) e
          ∙ terminate-raw ef_dumpcore (unflushed c shown),
    )
