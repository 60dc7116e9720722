-- ===== src/KvServer/Ownership.antt =====
-- Who changes or deletes a pair of server.c.
use linux_programming.Base.{
  take_short, ◌<◌, ◌≡◌, refl, ap, sym, ◌∙◌, ◌≢◌, Bool, true, false, ◌&&◌, ◌||◌, List, [], ◌∷◌,
  Option, none, some, arith, ltb, ◌==◌, if◌then◌else◌, length, take, Option-cases, Bool-cases, inl,
  inr, All,
}
use linux_programming.Base.Int.{ℤ, eqb_ℤ}
use linux_programming.Base.Bytes.{Bytes}
use linux_programming.Libc.Str.{str_eq, eq_of_str_eq}
use linux_programming.KvServer.{
  KeyValue, HashTable, Request, in_bounds, read_request, Round, served, upsert_value, get_value,
  delete_key_value, answer, dispatch, handle, serve,
}

-- A request by the creator of `kv` for the key `j`.
abbrev pub by_owner : Request → Bytes → KeyValue → Bool
by_owner r j kv = str_eq r.key j && eqb_ℤ kv.creator_pid r.creator_pid

-- A round that ends without a crash.
data Returns {T : Type 0} : Round T → Type 0 where
  returns : (t : T) (reply : Option Bytes) → Returns (served t reply)

returned :
    {T : Type 0} (r : Round T) → Returns r → (t : T) × (reply : Option Bytes) × (r ≡ served t reply)
returned r (returns t reply) = (t, reply, refl)

-- The datagram fits the buffer, its request the arrays, and malloc succeeds.
abbrev pub Safe : Bool × Bytes → Type 0
Safe m = (m.0 ≡ true) × (in_bounds m.1 ≡ true)

module _ (h : HashTable) where
  open h use {Table, find, add, assign, del, find-add, find-assign, find-del, find-key}

  -- Keys that are equal as strings have the same entry.
  other_key :
      (t : Table) (k j : Bytes) {a b : Option KeyValue}
      → find t k ≡ a
      → find t j ≡ b
      → a ≢ b
      → str_eq k j ≡ false
  other_key t k j at_k at_j ne = elim (Bool-cases (str_eq k j)) [
    | inl is ↦ absurd (ne (sym at_k ∙ (ap (find t) (eq_of_str_eq k j is) ∙ at_j)))
    | inr is ↦ is
  ]

  add-keeps :
      (t : Table) (kv0 : KeyValue) (j : Bytes) (kv : KeyValue)
      → find t kv0.key ≡ none
      → find t j ≡ some kv
      → find (add t kv0) j ≡ some kv
  add-keeps t kv0 j kv fresh there =
      rw (find-add t kv0 j fresh, other_key t kv0.key j fresh there (λ e. cc)) there

  assign-keeps :
      (t : Table) (kv0 old : KeyValue) (j : Bytes) (kv : KeyValue)
      → find t kv0.key ≡ some old
      → find t j ≡ some kv
      → str_eq kv0.key j ≡ false
      → find (assign t kv0) j ≡ some kv
  assign-keeps t kv0 old j kv known there ne = rw (find-assign t kv0 old j known, ne) there

  -- The owner of the entry for `k` differs from `id`, or `k` is another key than `j`.
  not_key :
      (t : Table) (k j : Bytes) (id : ℤ) (kv kv1 : KeyValue)
      → find t j ≡ some kv
      → find t k ≡ some kv1
      → (str_eq k j && eqb_ℤ kv.creator_pid id) ≡ false
      → eqb_ℤ kv1.creator_pid id ≡ true
      → str_eq k j ≡ false
  not_key t k j id kv kv1 there known other owner = elim (Bool-cases (str_eq k j)) [
    | inl is ↦
        let e = eq_of_str_eq k j is in
        let one : kv1 ≡ kv = cc (e, there, known) in absurd (ground (arith, is, one, other, owner))
    | inr is ↦ is
  ]

  upsert-keeps :
      (memory : Bool) (t : Table) (k v : Bytes) (id : ℤ) (j : Bytes) (kv : KeyValue) (t' : Table)
      (reply : Option Bytes)
      → length k < 64
      → find t j ≡ some kv
      → (str_eq k j && eqb_ℤ kv.creator_pid id) ≡ false
      → upsert_value h memory t k v id ≡ served t' reply
      → find t' j ≡ some kv
  unfolding upsert_value
  upsert-keeps memory t k v id j kv t' reply small there other run =
      elim (Option-cases (find t k)) [
        | inl fresh ↦
            let kv0 : KeyValue = record { key = take 64 k; value = take 256 v; creator_pid = id } in
            let kept = add-keeps t kv0 j kv (rw (take_short 64 k (omega arith)) fresh) there in
            ground (arith, kept, rw (fresh, upsert_value) at run)
        | inr (kv1, known) ↦ elim (Bool-cases (eqb_ℤ kv1.creator_pid id)) [
          | inl owner ↦
              let e = find-key t k kv1 known in
              let ne = not_key t k j id kv kv1 there known other owner in
              let kept =
                assign-keeps t (record kv1 { value = take 256 v }) kv1 j kv (ap (find t) e ∙ known)
                  there (ap (λ x. str_eq x j) e ∙ ne) in
              ground (arith, kept, rw (known, owner, upsert_value) at run)
          | inr stranger ↦ ground (arith, there, rw (known, stranger, upsert_value) at run)
        ]
      ]

  delete-keeps :
      (t : Table) (k : Bytes) (id : ℤ) (j : Bytes) (kv : KeyValue)
      → find t j ≡ some kv
      → (str_eq k j && eqb_ℤ kv.creator_pid id) ≡ false
      → find (delete_key_value h t k id) j ≡ some kv
  unfolding delete_key_value
  delete-keeps t k id j kv there other = elim (Option-cases (find t k)) [
    | inl fresh ↦ rw (fresh, delete_key_value) there
    | inr (kv1, known) ↦ elim (Bool-cases (eqb_ℤ kv1.creator_pid id)) [
      | inl owner ↦
          let ne = not_key t k j id kv kv1 there known other owner in
          rw (known, owner, delete_key_value) (rw (find-del t k j, ne) there)
      | inr stranger ↦ rw (known, stranger, delete_key_value) there
    ]
  ]

  dispatch-keeps :
      (memory : Bool) (t : Table) (r : Request) (j : Bytes) (kv : KeyValue) (t' : Table)
      (reply : Option Bytes)
      → length r.key < 64
      → find t j ≡ some kv
      → by_owner r j kv ≡ false
      → dispatch h memory t r ≡ served t' reply
      → find t' j ≡ some kv
  unfolding dispatch
  dispatch-keeps memory t r j kv t' reply small there other run = ground (
    arith,
    upsert-keeps memory t r.key r.value r.creator_pid j kv t' reply small there other,
    delete-keeps t r.key r.creator_pid j kv there other,
  )

  -- A datagram that is not a request of the pair's creator for its key leaves the pair as it is.
  pub handle-keeps :
      (memory : Bool) (t : Table) (buf : Bytes) (j : Bytes) (kv : KeyValue) (t' : Table)
      (reply : Option Bytes)
      → find t j ≡ some kv
      → by_owner (read_request buf) j kv ≡ false
      → handle h memory t buf ≡ served t' reply
      → find t' j ≡ some kv
  unfolding handle
  handle-keeps memory t buf j kv t' reply there other run =
      let r = read_request buf in
      elim (Bool-cases (in_bounds buf)) [
        | inl fits ↦
            let small : length r.key < 64 = ground (arith, fits) in
            let kept = dispatch-keeps memory t r j kv t' reply small there other in
            kept (rw fits at run)
        | inr long ↦ absurd (ground (arith, long, run))
      ]

  if-Returns : (b : Bool) (x y : Round Table) → Returns x → Returns y → Returns (if b then x else y)
  if-Returns true x y at_x at_y = at_x
  if-Returns false x y at_x at_y = at_y

  upsert-Returns : (t : Table) (k v : Bytes) (id : ℤ) → Returns (upsert_value h true t k v id)
  unfolding upsert_value
  upsert-Returns t k v id = elim (Option-cases (find t k)) [
    | inl fresh ↦ rw (fresh, upsert_value) (returns _ _)
    | inr (kv1, known) ↦ rw (known, upsert_value) (if-Returns _ _ _ (returns _ _) (returns _ _))
  ]

  dispatch-Returns : (t : Table) (r : Request) → Returns (dispatch h true t r)
  unfolding dispatch
  dispatch-Returns t r = elim (Bool-cases (ltb r.n 3)) [
    | inl e ↦ rw (e, dispatch) (returns t none)
    | inr e ↦ elim (Bool-cases (r.n == 4)) [
      | inl f ↦
          rw (e, dispatch, f)
            (if-Returns ((r.action == b'c') || (r.action == b'u'))
              (upsert_value h true t r.key r.value r.creator_pid) (served t none)
              (upsert-Returns t r.key r.value r.creator_pid) (returns t none))
      | inr f ↦ elim (Bool-cases (r.action == b'r')) [
        | inl g ↦ rw (e, dispatch, f, g) (returns t (some (answer h (get_value h t r.key))))
        | inr g ↦
            rw (e, dispatch, f, g)
              (if-Returns (r.action == b'd')
                (served (delete_key_value h t r.key r.creator_pid) none) (served t none)
                (returns _ none) (returns t none))
      ]
    ]
  ]

  handle-Returns :
      (t : Table) (memory : Bool) (buf : Bytes)
      → Safe (memory, buf)
      → Returns (handle h memory t buf)
  unfolding handle
  handle-Returns t memory buf (has_room, fits) =
      rw (has_room, handle, fits) (dispatch-Returns t (read_request buf))

  -- Whatever other clients send, and in whatever order, where each datagram fits the buffer of the server, its key and value the
  -- arrays, and malloc does not fail, the server goes through all of them, and a pair of which no request is one of
  -- its creator for its key keeps its value and its creator.
  pub serve-keeps :
      (msgs : List (Bool × Bytes)) (t : Table) (j : Bytes) (kv : KeyValue)
      → find t j ≡ some kv
      → All (λ m. by_owner (read_request m.1) j kv ≡ false) msgs
      → All Safe msgs
      → (t' : Table) × (serve h t msgs ≡ served t' none) × (find t' j ≡ some kv)
  unfolding serve
  serve-keeps [] t j kv there others safe = (t, refl, there)
  serve-keeps ((memory, buf) ∷ msgs) t j kv there others safe =
      let (t1, sent, e) = returned _ (handle-Returns t memory buf (safe.0)) in
      let kept = handle-keeps memory t buf j kv t1 sent there (others.0) e in
      let (t', run, at_end) = serve-keeps msgs t1 j kv kept (others.1) (safe.1) in
      (t', rw (e, serve) run, at_end)
