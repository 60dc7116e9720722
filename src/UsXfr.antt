-- ===== src/UsXfr.antt =====
-- CH57-Sockets_UNIX_Domain/abstract_ns/us_xfr_cl.c and us_xfr_sv.c: clients that copy their standard input to a
-- stream socket, and the server that copies one connection after the other to its standard output. A step
-- is one system call of one process; how many bytes a call moves, and whether it fails, is an input.
mod Tables
mod Sends
mod Inv
mod Copies
pub mod Order
mod Weight
mod Goes
pub mod Progress
mod Steps
mod Tests
pub use Steps.*
use linux_programming.Base.{
  ℕ, suc, ◌+◌, ◌-◌, Bool, true, false, ◌&&◌, List, [], ◌∷◌, ◌++◌, Option, none, some, ltb, leb,
  ◌==◌, if◌then◌else◌, ◌>>=◌, length, take, drop, replicate,
}
use linux_programming.Base.Bytes.{Bytes}

-- The C string that starts at these bytes: what stands before the first NUL.
abbrev pub before_nul : Bytes → Bytes
before_nul [] = []
before_nul (b ∷ bs) = let rest = before_nul bs in if b == 0 then [] else b ∷ rest

-- sizeof(addr.sun_path).
abbrev pub sun_path_size : ℕ
sun_path_size = 108

-- memset and strncpy(addr.sun_path, SV_SOCK_PATH, sizeof(addr.sun_path) - 1), in both programs.
unfoldable pub sun_path : Bytes → Bytes
sun_path path =
    let text = take 107 (before_nul path) in text ++ replicate (sun_path_size - length text) 0

-- How far the set-up of the server comes: with exit(EXIT_FAILURE) behind a message, or listening on the
-- socket. `errno` is that of remove, `none` where it succeeds; the others say whether a call succeeds.
pub data SetUp : Type 0 where
  exits : SetUp
  listens : Bytes → SetUp

abbrev pub enoent : ℕ
enoent = 2

abbrev pub removed : Option ℕ → Bool
removed none = true
removed (some errno) = errno == enoent

unfoldable pub set_up : Bytes → Bool → Option ℕ → Bool → Bool → SetUp
unfolding sun_path
set_up path socket errno bind listen =
    if socket && leb (length (before_nul path)) 107 && removed errno && bind && listen
    then listens (sun_path path)
    else exits

-- The client up to its loop: the name to which it is connected.
unfoldable pub client_set_up : Bytes → Bool → Bool → Option Bytes
client_set_up path socket connect = if socket && connect then some (sun_path path) else none
