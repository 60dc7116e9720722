-- ===== src/EchoServer/Ready.antt =====
-- The echo server before its loop: its descriptors, and its socket.
use linux_programming.Base.{
  ℕ, ◌<◌, ◌≡◌, ◌≢◌, refl, sym, ap, ◌∙◌, inl, inr, Bool, true, false, ◌||◌, List, [], ◌∷◌, Option,
  none, some, arith, unwrap, ==_refl,
}
use linux_programming.InetSockets.{AddrInfo, PassiveResult, inet_listen}
use linux_programming.InetSockets.Descriptors.{Balanced, inet_passive_socket-Balanced}
use linux_programming.EchoServer.{begin}
use linux_programming.EchoServer.Daemon.{
  Answers, Process, Table, socket, put, in_child, daemon_table, close_count,
  become_daemon-daemon_table,
}
use linux_programming.EchoServer.Start.{serves, with_sockets, with_socket, with_daemon, main_start}

returned_socket :
    (listens : Bool) (r : PassiveResult) (lfd : ℕ)
    → r.sfd ≡ some lfd
    → Balanced true listens [] r
    → r.fds ≡ lfd ∷ []
returned_socket listens r lfd h (inl (fd, e, f)) = f ∙ ap (λ k. k ∷ []) (unwrap (sym e ∙ h))
returned_socket listens r lfd h (inr (inl (e, f))) = cc
returned_socket listens r lfd h (inr (inr (fd, e, f, g))) = cc

with_socket-serves :
    (p : Process) (listens : Bool) (r : PassiveResult) (lfd : ℕ)
    → r.sfd ≡ some lfd
    → Balanced true listens [] r
    → with_socket p r ≡ serves (record p { table = put lfd (some socket) p.table }) lfd begin
with_socket-serves p listens r lfd h balanced =
    rw (h, with_socket)
      (ap (λ fds. serves (record p { table = with_sockets fds p.table }) lfd begin)
        (returned_socket listens r lfd h balanced))

-- A descriptor that is free in the table of a daemon is none of the standard ones.
free_not_standard : (m k : ℕ) (t : Table) → daemon_table m t k ≡ none → 2 < k
free_not_standard m k t h = ground arith

put_other : (fd k : ℕ) (t : Table) → k ≢ fd → put fd (some socket) t k ≡ t k
put_other fd k t ne = ground arith

-- Where the calls of becomeDaemon and sigaction succeed, with at least three descriptors allowed, and
-- inetListen returns a socket on a descriptor that the daemon has free, the server comes to its loop in a
-- daemon in which the socket is open on that descriptor, which is none of 0, 1 and 2. All others are those
-- of the daemon: 0, 1 and 2 are /dev/null, those below the limit of the closing loop are closed, also
-- those of the addresses that were tried before, and the rest is as it was. The mask is 0, and it is at
-- the root unless chdir fails.
pub main_start-serves :
    (a : Answers) (p : Process) (addresses : Option (List AddrInfo)) (listens : Bool) (lfd : ℕ)
    → a.first ≡ in_child
    → a.second ≡ in_child
    → a.setsid ≡ true
    → a.null_opened ≡ true
    → a.dup2_out ≡ true
    → a.dup2_err ≡ true
    → 2 < a.limit
    → (inet_listen addresses listens false []).sfd ≡ some lfd
    → daemon_table (close_count a.open_max) p.table lfd ≡ none
    → (q : Process) × (main_start a p true addresses listens ≡ serves q lfd begin)
      × (q.table lfd ≡ some socket)
      × ((k : ℕ) → k ≢ lfd → q.table k ≡ daemon_table (close_count a.open_max) p.table k)
      × (2 < lfd)
      × (q.mask ≡ 0)
      × (q.at_root ≡ (a.chdir || p.at_root))
unfolding main_start
main_start-serves a p addresses listens lfd first second session opened out err room listening
      fresh =
    let (q, daemon, table, mask, root) =
      become_daemon-daemon_table a p first second session opened out err room in
    let started =
      with_socket-serves q listens (inet_listen addresses listens false []) lfd listening
        (inet_passive_socket-Balanced addresses listens false []).0 in
    (
      record q { table = put lfd (some socket) q.table },
      ap (with_daemon true addresses listens) daemon ∙ started,
      rw (==_refl lfd) refl,
      λ k ne. put_other lfd k q.table ne ∙ table k,
      free_not_standard (close_count a.open_max) lfd p.table fresh,
      mask,
      root,
    )
