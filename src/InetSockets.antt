-- ===== src/InetSockets.antt =====
-- CH60-Sockets_Server_Design/limited_children/inet_sockets.c: sockets for a host and a service, with the
-- descriptors that are open as explicit state. What the system calls return is an input.
pub mod Descriptors
mod Tests
use linux_programming.Base.{
  ℕ, suc, ◌+◌, ◌-◌, Bool, true, false, not, ◌&&◌, List, [], ◌∷◌, ◌++◌, Option, none, some, ◌==◌,
  if◌then◌else◌, take,
}
use linux_programming.Base.Bytes.{Bytes, codes}

-- The descriptors that are open.
abbrev pub Fds : Type 0
Fds = List ℕ

abbrev pub close : ℕ → Fds → Fds
close fd [] = []
close fd (x ∷ fds) = if x == fd then fds else x ∷ close fd fds

-- An address that getaddrinfo has found, with what the calls on it return: the descriptor of socket
-- (`none` for -1), and whether setsockopt, and connect or bind, succeed.
pub record AddrInfo : Type 0 where
  pub socket : Option ℕ
  pub setsockopt : Bool
  pub accepts : Bool
  pub addrlen : ℕ

-- A descriptor or -1, and the descriptors that are open afterwards.
pub record Result : Type 0 where
  pub sfd : Option ℕ
  pub fds : Fds

unfoldable pub connect_loop : List AddrInfo → Fds → Result
connect_loop [] fds = record { sfd = none; fds = fds }
connect_loop (rp ∷ rest) fds = elim rp.socket [
  | none ↦ connect_loop rest fds
  | some sfd ↦
      let next = connect_loop rest (close sfd (sfd ∷ fds)) in
      if rp.accepts then record { sfd = some sfd; fds = sfd ∷ fds } else next
]

-- `result` is what getaddrinfo delivers, `none` on its failure.
unfoldable pub inet_connect : Option (List AddrInfo) → Fds → Result
inet_connect none fds = record { sfd = none; fds = fds }
inet_connect (some result) fds = connect_loop result fds

-- How the loop of inetPassiveSocket ends: with a bound socket, at the end of the list, or with a return
-- from the function.
pub data Passive : Type 0 where
  bound : ℕ → ℕ → Fds → Passive
  exhausted : Fds → Passive
  returned : Fds → Passive

unfoldable pub bind_loop : Bool → List AddrInfo → Fds → Passive
bind_loop do_listen [] fds = exhausted fds
bind_loop do_listen (rp ∷ rest) fds = elim rp.socket [
  | none ↦ bind_loop do_listen rest fds
  | some sfd ↦
      let next = bind_loop do_listen rest (close sfd (sfd ∷ fds)) in
      if do_listen && not rp.setsockopt
      then returned (close sfd (sfd ∷ fds))
      else if rp.accepts
      then bound sfd rp.addrlen (sfd ∷ fds)
      else next
]

-- The address length is stored where the caller has given a place for it.
pub record PassiveResult : Type 0 where
  pub sfd : Option ℕ
  pub addrlen : Option ℕ
  pub fds : Fds

abbrev pub minus : Fds → PassiveResult
minus fds = record { sfd = none; addrlen = none; fds = fds }

-- `listens` says whether listen succeeds.
unfoldable pub finish : Bool → Bool → Bool → Passive → PassiveResult
finish do_listen listens wants_len (returned fds) = minus fds
finish do_listen listens wants_len (exhausted fds) = minus fds
finish do_listen listens wants_len (bound sfd len fds) =
    if do_listen && not listens
    then minus fds
    else record { sfd = some sfd; addrlen = if wants_len then some len else none; fds = fds }

unfoldable pub inet_passive_socket :
    Option (List AddrInfo) → Bool → Bool → Bool → Fds → PassiveResult
inet_passive_socket none wants_len do_listen listens fds = minus fds
inet_passive_socket (some result) wants_len do_listen listens fds =
    finish do_listen listens wants_len (bind_loop do_listen result fds)

unfoldable pub inet_listen : Option (List AddrInfo) → Bool → Bool → Fds → PassiveResult
inet_listen result listens wants_len fds = inet_passive_socket result wants_len true listens fds

-- Without do_listen the result of listen is not asked for.
unfoldable pub inet_bind : Option (List AddrInfo) → Bool → Fds → PassiveResult
inet_bind result wants_len fds = inet_passive_socket result wants_len false true fds

-- The text in a buffer of `addr_str_len` bytes, from what getnameinfo delivers.
unfoldable pub inet_address_str : Option (Bytes × Bytes) → ℕ → Bytes
inet_address_str none addr_str_len = take (addr_str_len - 1) (codes "(?UNKNOWN?)")
inet_address_str (some (host, service)) addr_str_len =
    take (addr_str_len - 1) (codes "(" ++ host ++ codes ", " ++ service ++ codes ")")
