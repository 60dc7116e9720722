-- ===== src/ReliableDgram/Exchange.antt =====
-- What the clients of dgram_sv.c print.
use linux_programming.Base.{
  ℕ, zero, suc, ◌+◌, ◌≡◌, refl, sym, ap, ◌∙◌, inl, inr, true, Bool-cases, List, [], ◌∷◌, ◌++◌,
  append_assoc, append-nil, map, some, if◌then◌else◌, take, ap₂, arith, All, leb, ◌&&◌, ◌-◌,
}
use linux_programming.Base.Bytes.{Bytes, codes}
use linux_programming.Libc.Str.{str_eq, toupper, NoNul, upto-NoNul}
use linux_programming.Libc.Decimal.{decimal, print_int}
use linux_programming.ReliableDgram.{
  buf_size, Datagram, datagram, Server, receives, answer, reply, logged, serve, success,
  response_text, client_loop,
}

-- The datagrams with an address.
unfoldable pub with_address : Bytes → List Datagram → List Bytes
with_address a [] = []
with_address a (d ∷ ds) =
    let rest = with_address a ds in if str_eq a d.address then d.bytes ∷ rest else rest

-- A letter from a to z as the one from A to Z.
abbrev pub capital : ℕ → ℕ
capital c = if leb b'a' c && leb c b'z' then b'A' + (c - b'a') else c

-- The capitals of the first `n` bytes.
abbrev pub capitals : ℕ → Bytes → Bytes
capitals zero s = []
capitals (suc n) [] = []
capitals (suc n) (c ∷ s) = capital c ∷ capitals n s

-- The lines that a client has to print, from number `j` on: the first ten bytes of each argument.
abbrev pub capital_lines : ℕ → List Bytes → Bytes
capital_lines j [] = []
capital_lines j (arg ∷ args) =
    (codes "Response " ++ (decimal j ++ (codes ": " ++ (capitals 10 arg ++ codes "\n"))))
    ++ capital_lines (j + 1) args

-- The log of the server.
unfoldable pub log : List Datagram → Server → Bytes
log [] s = s.out
log (d ∷ ds) s = log ds (record { out = logged s d; sent = s.sent ++ reply d ∷ [] })

serve-replies :
    (ds : List Datagram) (out : Bytes) (sent : List Datagram)
    → serve (map (λ d. datagram d true) ds) (record { out = out; sent = sent })
      ≡ receives
          (record { out = log ds (record { out = out; sent = sent }); sent = sent ++ map reply ds })
unfolding serve log
serve-replies [] out sent =
    ap (λ l. receives (record { out = out; sent = l })) (sym (append-nil sent))
serve-replies (d ∷ ds) out sent =
    let s : Server = record { out = out; sent = sent } in
    let t : Server = record { out = logged s d; sent = sent ++ reply d ∷ [] } in
    serve-replies ds t.out t.sent
    ∙ ap (λ l. receives (record { out = log ds t; sent = l }))
        (append_assoc sent (reply d ∷ []) (map reply ds))

with_address-reply :
    (a : Bytes) (ds : List Datagram)
    → with_address a (map reply ds) ≡ map answer (with_address a ds)
unfolding with_address
with_address-reply a [] = refl
with_address-reply a (d ∷ ds) = elim (Bool-cases (str_eq a d.address)) [
  | inl e ↦ rw e (ap (λ l. answer d.bytes ∷ l) (with_address-reply a ds))
  | inr e ↦ rw e (with_address-reply a ds)
]

take-capitals : (n : ℕ) (m : Bytes) → take n (map toupper (take n m)) ≡ capitals n m
take-capitals zero m = refl
take-capitals (suc n) [] = refl
take-capitals (suc n) (c ∷ m) = ap₂ (λ x l. x ∷ l) (ground arith) (take-capitals n m)

capitals-NoNul : (n : ℕ) (m : Bytes) → NoNul m → NoNul (capitals n m)
capitals-NoNul zero m h = tt
capitals-NoNul (suc n) [] h = tt
capitals-NoNul (suc n) (c ∷ m) (h, hs) = (ground arith, capitals-NoNul n m hs)

response_line :
    (j : ℕ) (arg : Bytes)
    → NoNul arg
    → response_text j (take buf_size (answer arg))
      ≡ codes "Response " ++ (decimal j ++ (codes ": " ++ (capitals 10 arg ++ codes "\n")))
unfolding print_int
response_line j arg h =
    rw (take-capitals buf_size arg, upto-NoNul (capitals 10 arg) (capitals-NoNul 10 arg h)) refl

client_loop-capital_lines :
    (args : List Bytes) (j : ℕ) (out : Bytes)
    → All NoNul args
    → client_loop (λ k. true) j args (map some (map answer args)) out
      ≡ success (out ++ capital_lines j args)
unfolding client_loop
client_loop-capital_lines [] j out h = ap success (sym (append-nil out))
client_loop-capital_lines (arg ∷ args) j out (clean, h) =
    let text = response_text j (take buf_size (answer arg)) in
    client_loop-capital_lines args (j + 1) (out ++ text) h
    ∙ ap success (
        append_assoc out text (capital_lines (j + 1) args)
        ∙ ap (λ l. out ++ (l ++ capital_lines (j + 1) args)) (response_line j arg clean))

-- The server answers all that it receives, and a client whose arguments are among the datagrams in
-- their order, with those of other clients between them in any way, prints for each argument a line with
-- its number and its first ten bytes, in which the letters from a to z are capitals: where every sendto is
-- whole, and the client gets what the server has sent to its address, in order. The arguments are strings
-- without a NUL.
pub client_loop-serve :
    (ds : List Datagram) (a : Bytes) (args : List Bytes)
    → with_address a ds ≡ args
    → All NoNul args
    → (s : Server) × (serve (map (λ d. datagram d true) ds) (record { out = []; sent = [] })
        ≡ receives s)
      × (client_loop (λ k. true) 1 args (map some (with_address a s.sent)) []
          ≡ success (capital_lines 1 args))
client_loop-serve ds a args e clean = (
  record { out = log ds (record { out = []; sent = [] }); sent = map reply ds },
  serve-replies ds [] [],
  rw (with_address-reply a ds, e) (client_loop-capital_lines args 1 [] clean),
)
