-- ===== src/DirectoryObserver.antt =====
-- CH19-Monitoring_File_Events/directory_observer/directory_observer.c: inotify events of a directory tree. A
-- buffer is the list of the bytes that a read of the inotify descriptor delivers; the structs in it are
-- in the layout of inotify(7), with little-endian numbers.
pub mod Buffer
pub mod Events
pub mod Watches
mod Tests
use linux_programming.Base.{
  ◌>>=◌, ℕ, zero, suc, ◌+◌, ◌-◌, ◌*◌, ◌/◌, ◌%◌, ◌^◌, Bool, true, false, ◌&&◌, List, [], ◌∷◌, ◌++◌,
  Option, none, some, ltb, ◌==◌, if◌then◌else◌, length, drop, replicate,
}
use linux_programming.Base.Int.{ℤ, pos, to_int}
use linux_programming.Base.Bytes.{Bytes, codes}
use linux_programming.Libc.Decimal.{print_int}
use linux_programming.Libc.Str.{upto, str_eq}

-- `struct inotify_event`, less the name, which stands behind it.
pub record Header : Type 0 where
  pub wd : ℕ
  pub mask : ℕ
  pub cookie : ℕ
  pub len : ℕ

-- A number of 32 bits at the start of some bytes; `none` is a read beyond their end.
unfoldable pub le32 : Bytes → Option (ℕ × Bytes)
le32 [] = none
le32 (a ∷ []) = none
le32 (a ∷ b ∷ []) = none
le32 (a ∷ b ∷ c ∷ []) = none
le32 (a ∷ b ∷ c ∷ d ∷ rest) = some (a + 256 * b + 65536 * c + 16777216 * d, rest)

unfoldable pub header : Bytes → Option (Header × Bytes)
header bytes = do
  (wd, b1) ← le32 bytes
  (mask, b2) ← le32 b1
  (cookie, b3) ← le32 b2
  (len, rest) ← le32 b3
  some (record { wd = wd; mask = mask; cookie = cookie; len = len }, rest)

-- The bits of a mask, by their positions.
abbrev pub has : ℕ → ℕ → Bool
has mask bit = mask / 2 ^ bit % 2 == 1

abbrev pub in_create : ℕ
in_create = 8

abbrev pub in_isdir : ℕ
in_isdir = 30

-- The bits in the order in which they are printed.
abbrev pub mask_names : List (ℕ × Bytes)
mask_names =
    (0, codes "IN_ACCESS")
    ∷ (2, codes "IN_ATTRIB")
    ∷ (4, codes "IN_CLOSE_NOWRITE")
    ∷ (3, codes "IN_CLOSE_WRITE")
    ∷ (8, codes "IN_CREATE")
    ∷ (9, codes "IN_DELETE")
    ∷ (10, codes "IN_DELETE_SELF")
    ∷ (15, codes "IN_IGNORED")
    ∷ (30, codes "IN_ISDIR")
    ∷ (1, codes "IN_MODIFY")
    ∷ (11, codes "IN_MOVE_SELF")
    ∷ (6, codes "IN_MOVED_FROM")
    ∷ (7, codes "IN_MOVED_TO")
    ∷ (5, codes "IN_OPEN")
    ∷ (14, codes "IN_Q_OVERFLOW")
    ∷ (13, codes "IN_UNMOUNT")
    ∷ []

unfoldable pub mask_text : ℕ → List (ℕ × Bytes) → Bytes
mask_text mask [] = []
mask_text mask ((bit, name) ∷ names) = (if has mask bit then name else []) ++ mask_text mask names

-- A number printed in a field of a width.
abbrev pub padded : ℕ → Bytes → Bytes
padded width text = replicate (width - length text) 32 ++ text

unfoldable pub display_fields : Header → Bytes
display_fields h =
    codes "\twd ="
    ++ (padded 2 (print_int (to_int (pos h.wd)))
        ++ (codes "; "
            ++ ((if ltb 0 h.cookie
                  then codes "cookie = "
                    ++ (padded 4 (print_int (to_int (pos h.cookie))) ++ codes ";")
                  else [])
                ++ (codes "mask = " ++ (mask_text h.mask mask_names ++ codes "\n")))))

-- A string that starts with some bytes, up to its NUL; `none` where no NUL is among them.
unfoldable pub c_string : Bytes → Option Bytes
c_string [] = none
c_string (b ∷ bs) = if b == 0 then some [] else c_string bs >>= λ s. some (b ∷ s)

abbrev pub name_text : Bytes → Bytes
name_text name = codes "\t\t name = " ++ (name ++ codes "\n")

unfoldable pub display_event : Header → Bytes → Option Bytes
display_event h rest =
    if ltb 0 h.len
    then (c_string rest >>= λ name. some (display_fields h ++ name_text name))
    else some (display_fields h)

-- What nftw calls directory_action with, and what inotify_add_watch returns then (`false` for -1).
pub record Entry : Type 0 where
  pub path : Bytes
  pub is_dir : Bool
  pub added : Bool

-- One call of nftw; `walked` is false where it returns -1 in the end.
pub record Walk : Type 0 where
  pub entries : List Entry
  pub walked : Bool

-- A watch for a path that has one already changes that one.
unfoldable pub add_watch : Bytes → List Bytes → List Bytes
add_watch path [] = path ∷ []
add_watch path (w ∷ ws) = let rest = add_watch path ws in if str_eq path w then w ∷ ws else w ∷ rest

-- `none` is an exit with a failure.
unfoldable pub directory_action : Entry → List Bytes → Option (List Bytes)
directory_action e watched =
    if e.is_dir then (if e.added then some (add_watch e.path watched) else none) else some watched

unfoldable pub visit : List Entry → List Bytes → Option (List Bytes)
visit [] watched = some watched
visit (e ∷ es) watched = directory_action e watched >>= visit es

unfoldable pub nftw : Walk → List Bytes → Option (List Bytes)
nftw w watched = visit w.entries watched >>= λ ws. if w.walked then some ws else none

-- What is printed so far, the paths that are watched, and how many times nftw was called.
pub record State : Type 0 where
  pub out : Bytes
  pub watched : List Bytes
  pub walks : ℕ

-- `past_end` is an access beyond the bytes that were read; `exits` is an exit with a failure.
pub data Outcome : Type 0 where
  waits past_end exits running : State → Outcome

pub data Next : Type 0 where
  goes : Bytes → State → Next
  stops : Outcome → Next

abbrev pub print : Bytes → State → State
print text s = record { out = s.out ++ text; watched = s.watched; walks = s.walks }

-- `tree` says what each call of nftw finds, by how many there were before.
module _ (tree : ℕ → Walk) where
  abbrev pub watched_again : State → Option (List Bytes) → Bytes → Next
  watched_again s none rest = stops (exits s)
  watched_again s (some ws) rest =
      goes rest (record { out = s.out; watched = ws; walks = suc s.walks })

  abbrev pub displayed : State → Header → Bytes → Option Bytes → Next
  displayed s h rest none = stops (past_end s)
  displayed s h rest (some text) =
      let t = print text s in
      if has h.mask in_create && has h.mask in_isdir
      then watched_again t (nftw (tree s.walks) s.watched) (drop h.len rest)
      else goes (drop h.len rest) t

  abbrev pub event_at : State → Option (Header × Bytes) → Next
  event_at s none = stops (past_end s)
  event_at s (some (h, rest)) = displayed s h rest (display_event h rest)

  -- The loop over the events of a buffer, from `p` to its end, on fuel.
  unfoldable pub events : ℕ → Bytes → State → Outcome
  events zero bytes s = running s
  events (suc fuel) [] s = waits s
  events (suc fuel) (b ∷ bs) s = elim (event_at s (header (b ∷ bs))) [
    | goes rest t ↦ events fuel rest t
    | stops o ↦ o
  ]

  abbrev pub read_text : Bytes → Bytes
  read_text bytes =
      codes "Read " ++ (print_int (pos (length bytes)) ++ codes " bytes from inotify fd\n")

  -- The endless loop of main, over what the reads return (`none` for -1, no bytes for 0).
  unfoldable pub observe : List (Option Bytes) → State → Outcome
  observe [] s = waits s
  observe (none ∷ reads) s = exits s
  observe (some [] ∷ reads) s = exits s
  observe (some (b ∷ bs) ∷ reads) s =
      elim (events (suc (length (b ∷ bs))) (b ∷ bs) (print (read_text (b ∷ bs)) s)) [
        | waits t ↦ observe reads t
        | past_end t ↦ past_end t
        | exits t ↦ exits t
        | running t ↦ running t
      ]

  -- main, behind inotify_init: nothing is watched yet.
  unfoldable pub main : List (Option Bytes) → Outcome
  main reads = elim (nftw (tree 0) []) [
    | none ↦ exits (record { out = []; watched = []; walks = 0 })
    | some ws ↦ observe reads (record { out = []; watched = ws; walks = 1 })
  ]
