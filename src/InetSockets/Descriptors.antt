-- ===== src/InetSockets/Descriptors.antt =====
-- Which descriptors the functions of inet_sockets.c leave open.
use linux_programming.Base.{
  ℕ, ◌≡◌, refl, ◌⊎◌, inl, inr, Bool, true, false, not, ◌&&◌, List, [], ◌∷◌, Option, none, some,
  ==_refl, if◌then◌else◌, Bool-cases, Option-cases,
}
use linux_programming.InetSockets.{
  Fds, close, AddrInfo, Result, connect_loop, inet_connect, Passive, bound, exhausted, returned,
  bind_loop, PassiveResult, finish, inet_passive_socket, inet_listen, inet_bind,
}

close_new : (fd : ℕ) (fds : Fds) → close fd (fd ∷ fds) ≡ fds
close_new fd fds = rw (==_refl fd) refl

-- The socket of the first address that can be used.
abbrev pub usable : AddrInfo → Option ℕ
usable a = elim a.socket [ none ↦ none | some fd ↦ if a.accepts then some fd else none ]

abbrev pub or_else : Option ℕ → Option ℕ → Option ℕ
or_else none next = next
or_else (some fd) next = some fd

abbrev pub first_usable : List AddrInfo → Option ℕ
first_usable [] = none
first_usable (a ∷ rest) = or_else (usable a) (first_usable rest)

abbrev pub with_socket : Option ℕ → Fds → Result
with_socket none fds = record { sfd = none; fds = fds }
with_socket (some fd) fds = record { sfd = some fd; fds = fd ∷ fds }

-- inetConnect returns the socket of the first address that it can connect, and leaves only that socket
-- open; if there is none it returns -1 and leaves no socket open.
pub inet_connect-first_usable :
    (result : List AddrInfo) (fds : Fds)
    → inet_connect (some result) fds ≡ with_socket (first_usable result) fds
unfolding inet_connect connect_loop
inet_connect-first_usable [] fds = refl
inet_connect-first_usable (rp ∷ rest) fds = elim (Option-cases rp.socket) [
  | inl e ↦ rw e (inet_connect-first_usable rest fds)
  | inr (fd, e) ↦ elim (Bool-cases rp.accepts) [
    | inl ok ↦ rw (e, ok) refl
    | inr failed ↦ rw (e, failed, close_new fd fds) (inet_connect-first_usable rest fds)
  ]
]

-- The loop leaves at most the socket open that it returns.
pub data Kept (fds : Fds) : Passive → Type 0 where
  kept_bound : (fd len : ℕ) → Kept fds (bound fd len (fd ∷ fds))
  kept_exhausted : Kept fds (exhausted fds)
  kept_returned : Kept fds (returned fds)

bind_loop-Kept :
    (do_listen : Bool) (result : List AddrInfo) (fds : Fds)
    → Kept fds (bind_loop do_listen result fds)
unfolding bind_loop
bind_loop-Kept do_listen [] fds = kept_exhausted
bind_loop-Kept do_listen (rp ∷ rest) fds = elim (Option-cases rp.socket) [
  | inl e ↦ rw e (bind_loop-Kept do_listen rest fds)
  | inr (fd, e) ↦ elim (Bool-cases (do_listen && not rp.setsockopt)) [
    | inl stop ↦ rw (e, stop, close_new fd fds) kept_returned
    | inr on ↦ elim (Bool-cases rp.accepts) [
      | inl ok ↦ rw (e, on, ok) (kept_bound fd rp.addrlen)
      | inr failed ↦ rw (e, on, failed, close_new fd fds) (bind_loop-Kept do_listen rest fds)
    ]
  ]
]

-- A socket is returned and open, -1 is returned and no socket is open, or listen has failed.
abbrev pub Balanced : Bool → Bool → Fds → PassiveResult → Type 0
Balanced do_listen listens fds r =
    ((fd : ℕ) × (r.sfd ≡ some fd) × (r.fds ≡ fd ∷ fds))
    ⊎ (((r.sfd ≡ none) × (r.fds ≡ fds))
        ⊎ ((fd : ℕ) × (r.sfd ≡ none) × (r.fds ≡ fd ∷ fds) × ((do_listen && not listens) ≡ true)))

finish-Balanced :
    (do_listen listens wants_len : Bool) (fds : Fds) (p : Passive)
    → Kept fds p
    → Balanced do_listen listens fds (finish do_listen listens wants_len p)
unfolding finish
finish-Balanced do_listen listens wants_len fds p (kept_bound fd len) =
    elim (Bool-cases (do_listen && not listens)) [
      | inl failed ↦ rw failed (inr (inr (fd, refl, refl, refl)))
      | inr ok ↦ rw ok (inl (fd, refl, refl))
    ]
finish-Balanced do_listen listens wants_len fds p kept_exhausted = inr (inl (refl, refl))
finish-Balanced do_listen listens wants_len fds p kept_returned = inr (inl (refl, refl))

-- inetListen and inetBind end in one of three ways: they return a socket and leave only that one open;
-- they return -1 and leave none open; or, in inetListen alone, listen fails and the socket stays open
-- although -1 is returned.
pub inet_passive_socket-Balanced :
    (result : Option (List AddrInfo)) (listens wants_len : Bool) (fds : Fds)
    → Balanced true listens fds (inet_listen result listens wants_len fds)
      × Balanced false true fds (inet_bind result wants_len fds)
unfolding inet_listen inet_bind inet_passive_socket
inet_passive_socket-Balanced none listens wants_len fds =
    (inr (inl (refl, refl)), inr (inl (refl, refl)))
inet_passive_socket-Balanced (some result) listens wants_len fds = (
  finish-Balanced true listens wants_len fds _ (bind_loop-Kept true result fds),
  finish-Balanced false true wants_len fds _ (bind_loop-Kept false result fds),
)
