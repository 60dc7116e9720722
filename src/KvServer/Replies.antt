-- ===== src/KvServer/Replies.antt =====
-- The replies of main of server.c to its clients.

use linux_programming.Base.{
  ◌≡◌, refl, ap, ◌∙◌, inl, inr, ◌⊎◌, Bool, true, false, List, [], ◌∷◌, ◌++◌, map, Option, none,
  some, arith, All,
}
use linux_programming.Base.Int.{ℤ}
use linux_programming.Base.Bytes.{Bytes}
use linux_programming.KvServer.{HashTable, Round, served, crashed, handle, serve, read_request}
use linux_programming.KvServer.Ownership.{by_owner, Safe}
use linux_programming.KvServer.Texts.{IsInt, IsWord, Fits, create_text, read_text}
use linux_programming.KvServer.Requests.{pair, serve-read_text}
use linux_programming.KvServer.Mains.{Arrival, waits, Run, respond, main_loop, main_server}

-- Datagrams that arrive, whose replies are sent whole.
abbrev pub whole : List (Bool × Bytes) → List (Option Arrival)
whole = map (λ m. some (record { memory = m.0; buf = m.1; sent = true }))

module _ (h : HashTable) where
  open h use {Table, empty, find, find-empty}

  abbrev after : List Bytes → Run Table → Run Table
  after rs run = record { replies = rs ++ run.replies; end = run.end }

  abbrev with_reply : Option Bytes → List Bytes → List Bytes
  with_reply none rs = rs
  with_reply (some r) rs = r ∷ rs

  respond-after :
      (r : Option Bytes) (rs : List Bytes) (run : Run Table)
      → respond h true r (after rs run) ≡ after (with_reply r rs) run
  respond-after none rs run = refl
  respond-after (some r) rs run = refl

  Round-cases :
      (x : Round Table) → (x ≡ crashed) ⊎ ((t : Table) × (r : Option Bytes) × (x ≡ served t r))
  Round-cases crashed = inl refl
  Round-cases (served t r) = inr (t, r, refl)

  abbrev table_of : Table → Round Table → Table
  table_of t crashed = t
  table_of t (served u r) = u

  main_loop_next :
      (memory : Bool) (buf : Bytes) (rest : List (Option Arrival)) (t u : Table) (r : Option Bytes)
      → handle h memory t buf ≡ served u r
      → main_loop h t (some (record { memory = memory; buf = buf; sent = true }) ∷ rest)
        ≡ respond h true r (main_loop h u rest)
  unfolding main_loop
  main_loop_next memory buf rest t u r e = rw (e, main_loop) refl

  -- The loop goes on behind datagrams that `serve` goes through.
  main_loop-serve :
      (msgs : List (Bool × Bytes)) (t t' : Table)
      → serve h t msgs ≡ served t' none
      → (rs : List Bytes) × ((rest : List (Option Arrival))
          → main_loop h t (whole msgs ++ rest) ≡ after rs (main_loop h t' rest))
  unfolding serve main_loop
  main_loop-serve [] t t' e = ([], λ rest. ap (λ u. main_loop h u rest) (ap (table_of t) e))
  main_loop-serve ((memory, buf) ∷ msgs) t t' e = elim (Round-cases (handle h memory t buf)) [
    | inl c ↦ ground (arith, rw (c, serve) at e)
    | inr (u, r, p) ↦
        let (rs, goes_on) = main_loop-serve msgs u t' (rw (p, serve) at e) in
        (
          with_reply r rs,
          λ rest.
              main_loop_next memory buf (whole msgs ++ rest) t u r p
              ∙ ap (respond h true r) (goes_on rest)
              ∙ respond-after r rs (main_loop h t' rest),
        )
  ]

  last :
      (t : Table) (value : Bytes)
      → respond h true (some value) (main_loop h t [])
        ≡ record { replies = value ∷ []; end = waits t }
  unfolding main_loop
  last t value = refl

  -- The whole server, whose socket and bind succeed: a client creates a pair, other clients send what they
  -- like, in any order (datagrams that fit the server's buffer and arrays, of which none is one of the creator for
  -- the key), and then any client asks for the key. Where malloc does not fail and replies are sent
  -- whole, the last reply is the value, and the server waits for the next datagram. Ids are in the range
  -- of int, key and value are not empty, have no colon and no NUL, and fit the arrays.
  pub main_server-read_text :
      (pid reader : ℤ) (key value : Bytes) (msgs : List (Bool × Bytes))
      → IsInt pid
      → IsInt reader
      → IsWord key
      → IsWord value
      → Fits key value
      → All (λ m. by_owner (read_request m.1) key (pair h pid key value) ≡ false) msgs
      → All Safe msgs
      → (rs : List Bytes) × (t : Table) × (main_server h true true (
            whole ((true, create_text pid key value) ∷ msgs)
            ++ whole ((true, read_text reader key) ∷ []))
          ≡ some (record { replies = rs ++ value ∷ []; end = waits t }))
  unfolding main_server
  main_server-read_text pid reader key value msgs int int' k v fits others safe =
      let (t, run, answer) =
        serve-read_text h empty pid reader key value msgs int int' k v fits (find-empty key) others
          safe in
      let (rs, goes_on) = main_loop-serve ((true, create_text pid key value) ∷ msgs) empty t run in
      let ask = whole ((true, read_text reader key) ∷ []) in
      (
        rs,
        t,
        ap some (
            goes_on ask
            ∙ ap (after rs) (
                main_loop_next true (read_text reader key) [] t t (some value) answer
                ∙ last t value)),
      )
