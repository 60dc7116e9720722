-- ===== src/InetSockets/Tests.antt =====
-- inet_sockets.c at concrete addresses.
use linux_programming.Base.{◌≡◌, refl, true, false, List, [], ◌∷◌, none, some}
use linux_programming.InetSockets.{
  AddrInfo, inet_connect, inet_listen, inet_passive_socket, bind_loop, finish, minus,
}
use linux_programming.InetSockets.Descriptors.{first_usable, with_socket, inet_connect-first_usable}

-- The second of three addresses can be used.
abbrev addresses : List AddrInfo
addresses =
    record { socket = some 3; setsockopt = true; accepts = false; addrlen = 28 }
    ∷ record { socket = some 3; setsockopt = true; accepts = true; addrlen = 16 }
    ∷ record { socket = none; setsockopt = true; accepts = true; addrlen = 16 }
    ∷ []

leaks : inet_listen (some addresses) false true (0 ∷ []) ≡ minus (3 ∷ 0 ∷ [])
unfolding inet_listen inet_passive_socket bind_loop finish
leaks = refl

inet_connect-first_usable_example :
    inet_connect (some addresses) (0 ∷ []) ≡ with_socket (first_usable addresses) (0 ∷ [])
inet_connect-first_usable_example = inet_connect-first_usable addresses (0 ∷ [])
