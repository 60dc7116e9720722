-- ===== src/KvServer/Mains.antt =====
-- main of server.c: the set-up of its socket, and its loop with the replies and the exits.
use linux_programming.Base.{Bool, ◌&&◌, List, [], ◌∷◌, Option, none, some, if◌then◌else◌}
use linux_programming.Base.Bytes.{Bytes}
use linux_programming.KvServer.{HashTable, served, crashed, handle}

-- A datagram that recvfrom delivers, with whether malloc succeeds and whether sendto sends a reply whole.
pub record Arrival : Type 0 where
  pub memory : Bool
  pub buf : Bytes
  pub sent : Bool

-- The server waits in recvfrom with its table, it has exited with EXIT_FAILURE, or it has gone out of bounds.
pub data End (T : Type 0) : Type 0 where
  waits : T → End T
  exits fault : End T

pub record Run (T : Type 0) : Type 0 where
  pub replies : List Bytes
  pub end : End T

module _ (h : HashTable) where
  open h use {Table, empty}

  abbrev pub stop : End Table → Run Table
  stop end = record { replies = []; end = end }

  abbrev pub reply : Bytes → Run Table → Run Table
  reply r run = record { replies = r ∷ run.replies; end = run.end }

  -- Behind a turn that has a reply or none; `next` is what follows it.
  abbrev pub respond : Bool → Option Bytes → Run Table → Run Table
  respond sent none next = next
  respond sent (some r) next = if sent then reply r next else stop exits

  -- `none` is a recvfrom that fails.
  unfoldable pub main_loop : Table → List (Option Arrival) → Run Table
  main_loop t [] = stop (waits t)
  main_loop t (none ∷ rest) = stop exits
  main_loop t (some a ∷ rest) = elim (handle h a.memory t a.buf) [
    | crashed ↦ stop fault
    | served t' r ↦ respond a.sent r (main_loop t' rest)
  ]

  -- Whether socket and bind succeed; `none` for exit(EXIT_FAILURE) before the loop.
  unfoldable pub main_server : Bool → Bool → List (Option Arrival) → Option (Run Table)
  main_server socket bind arrivals =
      if socket && bind then some (main_loop empty arrivals) else none
