-- ===== src/KvServer.antt =====
-- CH59-Sockets_Internet_Domains/Exercise_59-4/server.c: a datagram server that keeps name-value pairs
-- and lets only the creator of a pair change or delete it. The hash table is uthash, a library that
-- the server includes: it is a parameter, with the laws that its documentation states.
pub mod Ownership
pub mod Texts
pub mod Arrival
pub mod Requests
pub mod Mains
pub mod Replies
mod Tests
use linux_programming.Base.{
  ℕ, ◌+◌, ◌-◌, ◌%◌, ◌^◌, ◌≡◌, Bool, true, false, ◌&&◌, ◌||◌, not, List, [], ◌∷◌, ◌++◌, Option, none,
  some, ltb, leb, ◌==◌, if◌then◌else◌, length, take,
}
use linux_programming.Base.Int.{ℤ, pos, negsuc, eqb_ℤ, to_int}
use linux_programming.Base.Bytes.{Bytes, codes}
use linux_programming.Libc.Str.{str_eq, upto}
use linux_programming.Libc.Strtol.{clamp, digits, starts_digit, skip_space}

-- `struct KeyValue`, less the handle of the hash table.
pub record KeyValue : Type 0 where
  pub key : Bytes
  pub value : Bytes
  pub creator_pid : ℤ

-- HASH_FIND_STR, HASH_ADD_STR, HASH_DEL and HASH_ITER. `assign` writes through the pointer that
-- HASH_FIND_STR has returned for the key of the new record.
pub record HashTable : Type 1 where
  pub Table : Type 0
  pub empty : Table
  pub find : Table → Bytes → Option KeyValue
  pub add : Table → KeyValue → Table
  pub assign : Table → KeyValue → Table
  pub del : Table → Bytes → Table
  pub entries : Table → List KeyValue
  pub find-empty : (j : Bytes) → find empty j ≡ none
  pub find-add :
      (t : Table) (kv : KeyValue) (j : Bytes)
      → find t kv.key ≡ none
      → find (add t kv) j ≡ (if str_eq kv.key j then some kv else find t j)
  pub find-assign :
      (t : Table) (kv old : KeyValue) (j : Bytes)
      → find t kv.key ≡ some old
      → find (assign t kv) j ≡ (if str_eq kv.key j then some kv else find t j)
  pub find-del :
      (t : Table) (k j : Bytes) → find (del t k) j ≡ (if str_eq k j then none else find t j)
  pub find-key : (t : Table) (k : Bytes) (kv : KeyValue) → find t k ≡ some kv → kv.key ≡ k

-- What the conversions of sscanf leave: how many were made, and the variables.
pub record Request : Type 0 where
  pub n : ℕ
  pub action : ℕ
  pub creator_pid : ℤ
  pub key : Bytes
  pub value : Bytes

abbrev pub colon : ℕ
colon = 58

-- BUF_SIZE of config.h.
abbrev pub buf_size : ℕ
buf_size = 512

-- The string in buf, of which a recvfrom has filled the front and memset the rest with NUL bytes: what does
-- not fit of a datagram is dropped. With no NUL in its first 512 bytes the string goes past the buffer.
unfoldable pub string_in : Bytes → Bytes
string_in datagram = upto (take buf_size datagram) 0

-- The digits of %d, with the sign already read: the value is that of strtol, stored in an int.
unfoldable pub scan_digits : Bool → Bytes → Option (ℤ × Bytes)
scan_digits neg s =
    if starts_digit 10 s
    then some (to_int (clamp neg (digits 10 0 s).0 (digits 10 0 s).1).value, (digits 10 0 s).1)
    else none

abbrev pub signed_int : Bytes → Option (ℤ × Bytes)
signed_int [] = none
signed_int (c ∷ s) =
    if c == 45
    then scan_digits true s
    else if c == 43
    then scan_digits false s
    else scan_digits false (c ∷ s)

unfoldable pub scan_int : Bytes → Option (ℤ × Bytes)
scan_int s = signed_int (skip_space s)

-- %[^:], and what follows it.
unfoldable pub span : Bytes → Bytes × Bytes
span [] = ([], [])
span (c ∷ s) = let rest = span s in if c == colon then ([], c ∷ s) else (c ∷ rest.0, rest.1)

abbrev pub after_colon : Bytes → Option Bytes
after_colon [] = none
after_colon (c ∷ s) = if c == colon then some s else none

abbrev pub is_nil : Bytes → Bool
is_nil [] = true
is_nil (c ∷ s) = false

abbrev pub request : ℕ → ℕ → ℤ → Bytes → Bytes → Request
request n a p k v = record { n = n; action = a; creator_pid = p; key = k; value = v }

unfoldable pub scan_value : ℕ → ℤ → Bytes → Option Bytes → Request
scan_value a p k none = request 3 a p k []
scan_value a p k (some s) =
    if is_nil (span s).0 then request 3 a p k [] else request 4 a p k (span s).0

unfoldable pub scan_key : ℕ → ℤ → Option Bytes → Request
scan_key a p none = request 2 a p [] []
scan_key a p (some s) =
    if is_nil (span s).0
    then request 2 a p [] []
    else scan_value a p (span s).0 (after_colon (span s).1)

unfoldable pub scan_pid : ℕ → Option Bytes → Request
scan_pid a none = request 1 a (pos 0) [] []
scan_pid a (some s) = elim (scan_int s) [
  | none ↦ request 1 a (pos 0) [] []
  | some (p, rest) ↦ scan_key a p (after_colon rest)
]

-- sscanf(buf, "%c:%d:%[^:]:%[^:]", ...) on variables that were set to zero.
unfoldable pub scan_request : Bytes → Request
unfolding scan_value scan_key scan_pid
scan_request [] = request 0 0 (pos 0) [] []
scan_request (a ∷ s) = scan_pid a (after_colon s)

-- The variables of a round: what sscanf makes of the string in the buffer.
unfoldable pub read_request : Bytes → Request
unfolding string_in scan_request
read_request datagram = scan_request (string_in datagram)

-- printf and sscanf read a string in buf, and sscanf writes key and value, with a NUL each, into arrays
-- of 64 and 256 bytes.
abbrev pub in_bounds : Bytes → Bool
in_bounds datagram =
    let r = read_request datagram in
    ltb (length (string_in datagram)) buf_size
    && (ltb (length r.key) 64 && ltb (length r.value) 256)

-- One round of the server: the new table and the reply, if one is sent. `crashed` is an access out of
-- bounds or through NULL.
pub data Round (T : Type 0) : Type 0 where
  served : T → Option Bytes → Round T
  crashed : Round T

module _ (h : HashTable) where
  open h use {Table, empty, find, add, assign, del, entries}

  -- `memory` says whether malloc succeeds; the source goes on after a failure.
  unfoldable pub upsert_value : Bool → Table → Bytes → Bytes → ℤ → Round Table
  upsert_value memory t key value creator_id = elim (find t key) [
    | none ↦
        if memory
        then served
            (add t (record { key = take 64 key; value = take 256 value; creator_pid = creator_id }))
            none
        else crashed
    | some kv ↦
        if eqb_ℤ kv.creator_pid creator_id
        then served (assign t (record kv { value = take 256 value })) none
        else served t none
  ]

  unfoldable pub get_value : Table → Bytes → Option Bytes
  get_value t key = elim (find t key) [ none ↦ none | some kv ↦ some kv.value ]

  unfoldable pub delete_key_value : Table → Bytes → ℤ → Table
  delete_key_value t key creator_id = elim (find t key) [
    | none ↦ t
    | some kv ↦ if eqb_ℤ kv.creator_pid creator_id then del t key else t
  ]

  delete_all : Table → List KeyValue → Table
  delete_all t [] = t
  delete_all t (kv ∷ kvs) = delete_all (del t kv.key) kvs

  unfoldable pub cleanup_hash_table : Table → Table
  unfolding delete_all
  cleanup_hash_table t = delete_all t (entries t)

  abbrev pub answer : Option Bytes → Bytes
  answer none = codes "Key not found"
  answer (some value) = value

  -- The branches of the loop body, on what sscanf delivered.
  unfoldable pub dispatch : Bool → Table → Request → Round Table
  dispatch memory t r =
      if ltb r.n 3
      then served t none
      else if r.n == 4
      then (if (r.action == b'c') || (r.action == b'u')
          then upsert_value memory t r.key r.value r.creator_pid
          else served t none)
      else if r.action == b'r'
      then served t (some (answer (get_value t r.key)))
      else if r.action == b'd'
      then served (delete_key_value t r.key r.creator_pid) none
      else served t none

  unfoldable pub handle : Bool → Table → Bytes → Round Table
  handle memory t datagram =
      if in_bounds datagram then dispatch memory t (read_request datagram) else crashed

  -- The loop over the datagrams that arrive: the table after them. The replies are those of `handle`.
  unfoldable pub serve : Table → List (Bool × Bytes) → Round Table
  serve t [] = served t none
  serve t ((memory, buf) ∷ rest) = elim (handle memory t buf) [
    | crashed ↦ crashed
    | served t' reply ↦ serve t' rest
  ]
