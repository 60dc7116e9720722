-- ===== src/KvServer/Requests.antt =====
-- The datagrams that a client of server.c sends, and what it reads back.
use linux_programming.Base.{
  take_short, ◌<◌, ◌≡◌, refl, ap, ◌∙◌, Bool, true, false, ◌&&◌, List, [], ◌∷◌, none, some, arith,
  ltb, lt→ltb, if◌then◌else◌, length, All,
}
use linux_programming.Base.Int.{ℤ}
use linux_programming.Base.Bytes.{Bytes}
use linux_programming.Libc.Str.{str_eq_refl}
use linux_programming.KvServer.{
  KeyValue, HashTable, Request, request, read_request, string_in, buf_size, served, crashed,
  upsert_value, get_value, dispatch, handle, serve,
}
use linux_programming.KvServer.Ownership.{by_owner, Safe, serve-keeps}
use linux_programming.KvServer.Texts.{IsInt, IsWord, Fits, create_text, read_text}
use linux_programming.KvServer.Arrival.{Arrives, create_text-Arrives, read_text-Arrives}

module _ (h : HashTable) where
  open h use {Table, find, add, find-add}

  abbrev pub pair : ℤ → Bytes → Bytes → KeyValue
  pair pid key value = record { key = key; value = value; creator_pid = pid }

  handle-dispatch :
      (memory : Bool) (t : Table) (buf : Bytes) (r : Request)
      → Arrives buf r
      → length r.key < 64
      → length r.value < 256
      → handle h memory t buf ≡ dispatch h memory t r
  unfolding handle
  handle-dispatch memory t buf r at small_k small_v =
      let in_buf = lt→ltb (length (string_in buf)) buf_size at.in_buf in
      let in_key : ltb (length r.key) 64 ≡ true = lt→ltb (length r.key) 64 small_k in
      let in_value : ltb (length r.value) 256 ≡ true = lt→ltb (length r.value) 256 small_v in
      ap
        (λ q.
          if ltb (length (string_in buf)) buf_size
            && (ltb (length q.key) 64 && ltb (length q.value) 256)
          then dispatch h memory t q
          else crashed)
        at.request_is
      ∙ rw (in_buf, in_key, in_value) refl

  upsert_value-fresh :
      (t : Table) (pid : ℤ) (key value : Bytes)
      → Fits key value
      → find t key ≡ none
      → upsert_value h true t key value pid ≡ served (add t (pair pid key value)) none
  unfolding upsert_value
  upsert_value-fresh t pid key value (small_k, small_v) fresh =
      rw (fresh, upsert_value, take_short 64 key (omega arith), take_short 256 value (omega arith))
        refl

  dispatch-create :
      (t : Table) (pid : ℤ) (key value : Bytes)
      → dispatch h true t (request 4 b'c' pid key value) ≡ upsert_value h true t key value pid
  unfolding dispatch
  dispatch-create t pid key value = refl

  handle-create_text :
      (t : Table) (pid : ℤ) (key value : Bytes)
      → IsInt pid
      → IsWord key
      → IsWord value
      → Fits key value
      → find t key ≡ none
      → handle h true t (create_text pid key value) ≡ served (add t (pair pid key value)) none
  handle-create_text t pid key value int k v (small_k, small_v) fresh =
      handle-dispatch true t (create_text pid key value) (request 4 b'c' pid key value)
        (create_text-Arrives pid key value int k v (small_k, small_v)) small_k small_v
      ∙ (dispatch-create t pid key value
          ∙ upsert_value-fresh t pid key value (small_k, small_v) fresh)

  get_value-found :
      (t : Table) (key : Bytes) (kv : KeyValue)
      → find t key ≡ some kv
      → get_value h t key ≡ some kv.value
  unfolding get_value
  get_value-found t key kv there = rw (get_value, there) refl

  dispatch-read :
      (memory : Bool) (t : Table) (reader : ℤ) (key : Bytes) (kv : KeyValue)
      → find t key ≡ some kv
      → dispatch h memory t (request 3 b'r' reader key []) ≡ served t (some kv.value)
  unfolding dispatch
  dispatch-read memory t reader key kv there = rw (get_value-found t key kv there) refl

  handle-read_text :
      (memory : Bool) (t : Table) (reader : ℤ) (key : Bytes) (kv : KeyValue)
      → IsInt reader
      → IsWord key
      → length key < 64
      → find t key ≡ some kv
      → handle h memory t (read_text reader key) ≡ served t (some kv.value)
  handle-read_text memory t reader key kv int k small there =
      handle-dispatch memory t (read_text reader key) (request 3 b'r' reader key [])
        (read_text-Arrives reader key int k small) small (omega arith)
      ∙ dispatch-read memory t reader key kv there

  serve-cons :
      (memory : Bool) (t u : Table) (buf : Bytes) (rest : List (Bool × Bytes))
      → handle h memory t buf ≡ served u none
      → serve h t ((memory, buf) ∷ rest) ≡ serve h u rest
  unfolding serve
  serve-cons memory t u buf rest e = rw (serve, e) refl

  find-add_self :
      (t : Table) (kv : KeyValue) → find t kv.key ≡ none → find (add t kv) kv.key ≡ some kv
  find-add_self t kv fresh = rw (find-add t kv kv.key fresh, str_eq_refl kv.key) refl

  -- A client creates a pair for a key that has none; then other clients send what they like, in any order:
  -- datagrams that fit the server's buffer and arrays, of which none is one of the creator for the key, with
  -- malloc not failing. The server goes through all of them, and then answers a request to read the key with the
  -- value, whoever sends it. Ids are in the range of int, key and value are not empty, have no colon and no
  -- NUL, and fit the arrays.
  pub serve-read_text :
      (t : Table) (pid reader : ℤ) (key value : Bytes) (msgs : List (Bool × Bytes))
      → IsInt pid
      → IsInt reader
      → IsWord key
      → IsWord value
      → Fits key value
      → find t key ≡ none
      → All (λ m. by_owner (read_request m.1) key (pair pid key value) ≡ false) msgs
      → All Safe msgs
      → (t' : Table) × (serve h t ((true, create_text pid key value) ∷ msgs) ≡ served t' none)
        × (handle h true t' (read_text reader key) ≡ served t' (some value))
  serve-read_text t pid reader key value msgs int int' k v (small_k, small_v) fresh others safe =
      let kv = pair pid key value in
      let first = handle-create_text t pid key value int k v (small_k, small_v) fresh in
      let there = find-add_self t kv fresh in
      let (t', run, at_end) = serve-keeps h msgs (add t kv) key kv there others safe in
      (
        t',
        serve-cons true t (add t kv) (create_text pid key value) msgs first ∙ run,
        handle-read_text true t' reader key kv int' k small_k at_end,
      )
