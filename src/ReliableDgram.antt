-- ===== src/ReliableDgram.antt =====
-- CH57-Sockets_UNIX_Domain/reliable_dgram: dgram_sv.c sends each datagram back in upper case, dgram_cl.c sends its
-- arguments and prints the answers. An address is the path of a socket. What the sockets deliver is an input.
pub mod Exchange
pub mod Mains
mod Tests
use linux_programming.Base.{
  ℕ, ◌+◌, Bool, true, false, List, [], ◌∷◌, ◌++◌, map, Option, none, some, if◌then◌else◌, length,
  take,
}
use linux_programming.Base.Int.{pos}
use linux_programming.Base.Bytes.{Bytes, codes}
use linux_programming.Libc.Str.{upto, toupper}
use linux_programming.Libc.Decimal.{print_int}

-- BUF_SIZE of dgram.h: recvfrom drops what does not fit.
abbrev pub buf_size : ℕ
buf_size = 10

-- A datagram with the address that it comes from, or that it goes to.
pub record Datagram : Type 0 where
  pub address : Bytes
  pub bytes : Bytes

-- What a recvfrom of the server gives, with the result of the sendto that follows (whole or not); an error.
pub data Received : Type 0 where
  datagram : Datagram → Bool → Received
  error : Received

pub record Server : Type 0 where
  pub out : Bytes
  pub sent : List Datagram

pub data Served : Type 0 where
  receives exits : Server → Served

abbrev pub received_text : Bytes → Bytes → Bytes
received_text address buf =
    codes "Server received "
    ++ (print_int (pos (length buf)) ++ (codes " bytes from " ++ (address ++ codes "\n")))

-- The buffer of the server, and what becomes of it.
abbrev pub answer : Bytes → Bytes
answer message = map toupper (take buf_size message)

abbrev pub reply : Datagram → Datagram
reply d = record { address = d.address; bytes = answer d.bytes }

abbrev pub logged : Server → Datagram → Bytes
logged s d = s.out ++ received_text d.address (take buf_size d.bytes)

-- The endless loop of the server, over what it receives.
unfoldable pub serve : List Received → Server → Served
serve [] s = receives s
serve (error ∷ rs) s = exits s
serve (datagram d whole ∷ rs) s =
    let next = serve rs (record { out = logged s d; sent = s.sent ++ reply d ∷ [] }) in
    if whole then next else exits (record { out = logged s d; sent = s.sent })

-- How the client ends, with what it has printed: with success, or with a failure; `waits` is a recvfrom to
-- which nothing has been sent.
pub data Client : Type 0 where
  success failure waits : Bytes → Client

abbrev pub response_text : ℕ → Bytes → Bytes
response_text j resp =
    codes "Response " ++ (print_int (pos j) ++ (codes ": " ++ (upto resp 0 ++ codes "\n")))

-- The loop over the arguments, from the `j`-th: `sends` says whether sendto of an argument succeeds, and the
-- datagrams are those that come in (`none` for an error).
unfoldable pub client_loop : (ℕ → Bool) → ℕ → List Bytes → List (Option Bytes) → Bytes → Client
client_loop sends j [] inbox out = success out
client_loop sends j (arg ∷ args) [] out = if sends j then waits out else failure out
client_loop sends j (arg ∷ args) (none ∷ inbox) out = failure out
client_loop sends j (arg ∷ args) (some bytes ∷ inbox) out =
    let next =
      client_loop sends (j + 1) args inbox (out ++ response_text j (take buf_size bytes)) in
    if sends j then next else failure out
