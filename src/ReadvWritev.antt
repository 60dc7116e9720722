-- ===== src/ReadvWritev.antt =====
-- CH05-FILE_IO_Further_Details/readv_writev/readv_writev.c: scatter input and gather output by repeated read and
-- write. What each read or write transfers is an input: at most so many bytes, `none` for -1.
pub mod RoundTrip
mod Tests
use linux_programming.Base.{
  ℕ, ◌+◌, ◌-◌, ◌^◌, min, List, [], ◌∷◌, ◌++◌, Option, none, some, leb, if◌then◌else◌, length, take,
  drop,
}
use linux_programming.Base.Int.{ℤ, pos, minus_one}
use linux_programming.Base.Bytes.{Bytes}

abbrev pub ssize_max : ℕ
ssize_max = 2 ^ 63 - 1

-- A buffer to write, with the number of bytes that its write transfers.
pub record Out : Type 0 where
  pub buf : Bytes
  pub written : Option ℕ

-- The length of a buffer to read into, with the number of bytes that its read transfers.
pub record In : Type 0 where
  pub length : ℕ
  pub got : Option ℕ

-- The result of my_writev, with the bytes that have been written to the file.
pub record Wrote : Type 0 where
  pub result : ℤ
  pub file : Bytes

-- The result of my_readv, with the bytes that each buffer has got and those that are left in the file.
pub record Got : Type 0 where
  pub result : ℤ
  pub bufs : List Bytes
  pub left : Bytes

abbrev pub wrote : ℤ → Bytes → Wrote
wrote r f = record { result = r; file = f }

unfoldable pub write_bufs : List Out → ℕ → Bytes → Wrote
write_bufs [] total file = wrote (pos total) file
write_bufs (o ∷ os) total file = elim o.written [
  | none ↦ wrote minus_one file
  | some n ↦
      let next = write_bufs os (total + n) (file ++ take n o.buf) in
      if leb ssize_max (total + n) then wrote minus_one (file ++ take n o.buf) else next
]

-- `file` is what the file holds.
unfoldable pub my_writev : List Out → Bytes → Wrote
my_writev [] file = wrote minus_one file
my_writev (o ∷ os) file = write_bufs (o ∷ os) 0 file

abbrev pub more : Bytes → Got → Got
more b g = record { result = g.result; bufs = b ∷ g.bufs; left = g.left }

abbrev pub stopped : Bytes → Bytes → Got
stopped b file = record { result = minus_one; bufs = b ∷ []; left = file }

-- A read gives no more than the buffer takes and the file holds.
unfoldable pub read_bufs : List In → ℕ → Bytes → Got
read_bufs [] total file = record { result = pos total; bufs = []; left = file }
read_bufs (i ∷ is) total file = elim i.got [
  | none ↦ record { result = minus_one; bufs = []; left = file }
  | some k ↦
      let bytes = take (min k i.length) file in
      let rest = drop (min k i.length) file in
      let next = more bytes (read_bufs is (total + length bytes) rest) in
      if leb ssize_max (total + length bytes) then stopped bytes rest else next
]

unfoldable pub my_readv : List In → Bytes → Got
my_readv [] file = record { result = minus_one; bufs = []; left = file }
my_readv (i ∷ is) file = read_bufs (i ∷ is) 0 file
