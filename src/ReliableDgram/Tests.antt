-- ===== src/ReliableDgram/Tests.antt =====
-- Two clients of dgram_sv.c whose datagrams are mixed.
use linux_programming.Base.{none, false, ◌≡◌, refl, true, List, [], ◌∷◌, map, All, some}
use linux_programming.Base.Bytes.{Bytes, codes}
use linux_programming.Libc.Str.{str_eq, NoNul}
use linux_programming.ReliableDgram.Mains.{main_server, main_client}
use linux_programming.ReliableDgram.{
  Datagram, datagram, Server, receives, serve, success, client_loop,
}
use linux_programming.ReliableDgram.Exchange.{with_address, capital_lines, client_loop-serve}

abbrev mixed : List Datagram
mixed =
    record { address = codes "a"; bytes = codes "one" }
    ∷ record { address = codes "b"; bytes = codes "x" }
    ∷ record { address = codes "a"; bytes = codes "twelve bytes" }
    ∷ []

abbrev args : List Bytes
args = codes "one" ∷ codes "twelve bytes" ∷ []

of_a : with_address (codes "a") mixed ≡ args
unfolding with_address str_eq
of_a = refl

clean : All NoNul args
clean = (
  (refl, (refl, (refl, tt))),
  (
    (
      refl,
      (refl, (refl, (refl, (refl, (refl, (refl, (refl, (refl, (refl, (refl, (refl, tt))))))))))),
    ),
    tt,
  ),
)

client_loop-serve_example :
    (s : Server) × (serve (map (λ d. datagram d true) mixed) (record { out = []; sent = [] })
      ≡ receives s)
    × (client_loop (λ k. true) 1 args (map some (with_address (codes "a") s.sent)) []
        ≡ success (capital_lines 1 args))
client_loop-serve_example = client_loop-serve mixed (codes "a") args of_a clean

bind_fails : main_server (record { socket = true; remove = some 2; bind = false }) [] ≡ none
unfolding main_server
bind_fails = refl

no_message : main_client true true (λ j. true) [] [] ≡ none
unfolding main_client
no_message = refl
