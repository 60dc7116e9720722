-- ===== src/KvServer/Tests.antt =====
-- The hash table as an association list, and server.c at a concrete run.
use linux_programming.Base.{
  ◌≡◌, refl, Bool, true, false, List, [], ◌∷◌, Option, none, some, if◌then◌else◌, Bool-cases, ◌∙◌,
  ap, sym, arith, inl, inr, All, ◌++◌,
}
use linux_programming.Base.Int.{pos, minus_one}
use linux_programming.Base.Bytes.{Bytes, codes}
use linux_programming.Libc.Str.{upto, str_eq, strcmp, eq_of_str_eq, str_eq_refl}
use linux_programming.Libc.Strtol.{skip_space, digits}
use linux_programming.KvServer.Mains.{waits, exits, main_server, main_loop}
use linux_programming.KvServer.Replies.{whole, main_server-read_text}
use linux_programming.KvServer.{
  KeyValue, HashTable, request, served, serve, read_request, string_in, scan_request, scan_pid,
  scan_key, scan_value, scan_int, scan_digits, span,
}
use linux_programming.KvServer.Texts.{IsWord, create_text, read_text}
use linux_programming.KvServer.Ownership.{by_owner, Safe, serve-keeps}

abbrev find_in : List KeyValue → Bytes → Option KeyValue
find_in [] j = none
find_in (kv ∷ t) j = if str_eq kv.key j then some kv else find_in t j

abbrev without : List KeyValue → Bytes → List KeyValue
without [] k = []
without (kv ∷ t) k = let rest = without t k in if str_eq k kv.key then rest else kv ∷ rest

two_keys : (k k' j : Bytes) → str_eq k k' ≡ false → str_eq k j ≡ true → str_eq k' j ≡ false
two_keys k k' j ne e = elim (Bool-cases (str_eq k' j)) [
  | inl f ↦
      let one : k ≡ k' = eq_of_str_eq k j e ∙ sym (eq_of_str_eq k' j f) in
      absurd (ground (arith, sym (str_eq_refl k') ∙ ap (λ x. str_eq x k') (sym one), ne))
  | inr f ↦ f
]

find-without :
    (t : List KeyValue) (k j : Bytes)
    → find_in (without t k) j ≡ (if str_eq k j then none else find_in t j)
find-without [] k j = elim (Bool-cases (str_eq k j)) [ inl e ↦ rw e refl | inr e ↦ rw e refl ]
find-without (kv ∷ t) k j =
    let ih = find-without t k j in
    elim (Bool-cases (str_eq k kv.key)) [
      | inl e ↦ let s = ap (λ x. str_eq x j) (eq_of_str_eq k kv.key e) in ground (arith, ih, s, e)
      | inr e ↦ ground (arith, ih, e, two_keys k kv.key j)
    ]

find-key : (t : List KeyValue) (k : Bytes) (kv : KeyValue) → find_in t k ≡ some kv → kv.key ≡ k
find-key [] k kv found = absurd (ground (arith, found))
find-key (kv1 ∷ t) k kv found = elim (Bool-cases (str_eq kv1.key k)) [
  | inl is ↦ cc (eq_of_str_eq kv1.key k is, rw is at found)
  | inr is ↦ find-key t k kv (rw is at found)
]

find-replaced :
    (t : List KeyValue) (kv : KeyValue) (j : Bytes)
    → find_in (kv ∷ without t kv.key) j ≡ (if str_eq kv.key j then some kv else find_in t j)
find-replaced t kv j = elim (Bool-cases (str_eq kv.key j)) [
  | inl e ↦ rw e refl
  | inr e ↦ ground (arith, e, find-without t kv.key j)
]

abbrev assoc : HashTable
assoc = record {
  Table = List KeyValue;
  empty = [];
  find = find_in;
  add = λ t kv. kv ∷ t;
  assign = λ t kv. kv ∷ without t kv.key;
  del = without;
  entries = λ t. t;
  find-empty = λ j. refl;
  find-add = λ t kv j fresh. refl;
  find-assign = λ t kv old j known. find-replaced t kv j;
  find-del = find-without;
  find-key = find-key;
}

abbrev alice : KeyValue
alice = record { key = codes "k"; value = codes "v"; creator_pid = pos 7 }

abbrev by_bob : List (Bool × Bytes)
by_bob = (true, codes "u:8:k:stolen") ∷ (true, codes "d:8:k") ∷ (true, codes "c:7:other:x") ∷ []

alice_there : find_in (alice ∷ []) (codes "k") ≡ some alice
unfolding str_eq strcmp
alice_there = refl

not_alice : All (λ m. by_owner (read_request m.1) (codes "k") alice ≡ false) by_bob
unfolding str_eq strcmp read_request string_in upto scan_request scan_pid scan_key scan_value
    scan_int scan_digits span skip_space digits
not_alice = (refl, (refl, (refl, tt)))

All-Safe : All Safe by_bob
unfolding str_eq strcmp read_request string_in upto scan_request scan_pid scan_key scan_value
    scan_int scan_digits span skip_space digits
All-Safe = ((refl, refl), ((refl, refl), ((refl, refl), tt)))

serve-keeps_example :
    (t' : List KeyValue) × (serve assoc (alice ∷ []) by_bob ≡ served t' none)
    × (find_in t' (codes "k") ≡ some alice)
serve-keeps_example =
    serve-keeps assoc by_bob (alice ∷ []) (codes "k") alice alice_there not_alice All-Safe

words : IsWord (codes "k") × IsWord (codes "v")
words = (((refl, tt), refl, (refl, tt)), ((refl, tt), refl, (refl, tt)))

main_server-read_text_example :
    (rs : List Bytes) × (t : List KeyValue) × (main_server assoc true true (
        whole ((true, create_text (pos 7) (codes "k") (codes "v")) ∷ by_bob)
        ++ whole ((true, read_text (pos 8) (codes "k")) ∷ []))
      ≡ some (record { replies = rs ++ codes "v" ∷ []; end = waits t }))
main_server-read_text_example =
    main_server-read_text assoc (pos 7) (pos 8) (codes "k") (codes "v") by_bob
      (omega arith, omega arith) (omega arith, omega arith) words.0 words.1
      (omega arith, omega arith) not_alice All-Safe

-- A recvfrom that fails ends the server.
recv_fails : main_server assoc true true (none ∷ []) ≡ some (record { replies = []; end = exits })
unfolding main_server main_loop
recv_fails = refl

-- The string of a datagram ends at its first NUL.
nul_ends : read_request (codes "d:7:k" ++ 0 ∷ []) ≡ request 3 b'd' (pos 7) (codes "k") []
unfolding read_request string_in upto scan_request scan_pid scan_key scan_value scan_int scan_digits
    span skip_space digits
nul_ends = refl

-- A number that does not fit a long is stored as -1.
too_large : (read_request (codes "r:99999999999999999999:k")).creator_pid ≡ minus_one
unfolding read_request string_in upto scan_request scan_pid scan_key scan_value scan_int scan_digits
    span skip_space digits
too_large = refl
