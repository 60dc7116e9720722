-- ===== src/DirectoryObserver/Events.antt =====
-- What directory_observer.c makes of a buffer that the kernel has filled.
use linux_programming.Base.{
  ℕ, zero, suc, ◌+◌, ◌-◌, ◌*◌, ◌/◌, ◌%◌, ◌^◌, ◌<◌, ◌≡◌, ◌≢◌, ◌⊎◌, inl, inr, refl, sym, ap, ◌∙◌,
  true, false, Bool-cases, Option-cases, ltb→lt, ◌&&◌, List, [], ◌∷◌, ◌++◌, append_assoc,
  append-nil, none, some, arith, ltb, ◌==◌, if◌then◌else◌, length, length-append, length-replicate,
  drop, replicate, All,
}
use linux_programming.Base.Bytes.{Bytes}
use linux_programming.DirectoryObserver.{
  Header, le32, header, has, in_create, in_isdir, display_fields, c_string, name_text,
  display_event, Walk, nftw, State, Outcome, waits, exits, goes, stops, print, watched_again,
  event_at, events,
}

-- A number in the four bytes of a field.
abbrev pub put32 : ℕ → Bytes
put32 n = n % 256 ∷ n / 256 % 256 ∷ n / 65536 % 256 ∷ n / 16777216 % 256 ∷ []

-- An event as the kernel writes it: the name, if there is one, has at least one NUL behind it.
pub record Event : Type 0 where
  pub wd : ℕ
  pub mask : ℕ
  pub cookie : ℕ
  pub name : Bytes
  pub nuls : ℕ

abbrev pub header_of : Event → Header
header_of e = record { wd = e.wd; mask = e.mask; cookie = e.cookie; len = length e.name + e.nuls }

abbrev pub name_field : Event → Bytes
name_field e = e.name ++ replicate e.nuls 0

unfoldable pub encode : Event → Bytes
encode e =
    put32 e.wd
    ++ (put32 e.mask ++ (put32 e.cookie ++ (put32 (length e.name + e.nuls) ++ name_field e)))

unfoldable pub encode_all : List Event → Bytes
encode_all [] = []
encode_all (e ∷ es) = encode e ++ encode_all es

-- What can be an event: the numbers have 32 bits, and a name has no NUL but behind it.
unfoldable pub Valid : Event → Type 0
Valid e =
    (e.wd < 2 ^ 32)
    × (e.mask < 2 ^ 32)
    × (e.cookie < 2 ^ 32)
    × (length e.name + e.nuls < 2 ^ 32)
    × All (λ b. b ≢ 0) e.name
    × ((e.name ≡ []) ⊎ (0 < e.nuls))

-- What is printed of an event.
unfoldable pub shown : Event → Bytes
shown e =
    display_fields (header_of e)
    ++ (if ltb 0 (length e.name + e.nuls) then name_text e.name else [])

le32-put32 : (n : ℕ) (rest : Bytes) → n < 2 ^ 32 → le32 (put32 n ++ rest) ≡ some (n, rest)
unfolding le32
le32-put32 n rest h =
    let e : n % 256
          + 256 * (n / 256 % 256)
          + 65536 * (n / 65536 % 256)
          + 16777216 * (n / 16777216 % 256)
        ≡ n =
      omega arith in
    ap (λ k. some (k, rest)) e

header-encode :
    (e : Event) (rest : Bytes)
    → Valid e
    → header (encode e ++ rest) ≡ some (header_of e, name_field e ++ rest)
unfolding header encode Valid
header-encode e rest (h1, h2, h3, h4, h5, h6) =
    rw (le32-put32 e.wd _ h1, le32-put32 e.mask _ h2, le32-put32 e.cookie _ h3, le32-put32 _ _ h4)
      refl

c_string-name :
    (name : Bytes) (rest : Bytes) → All (λ b. b ≢ 0) name → c_string (name ++ 0 ∷ rest) ≡ some name
unfolding c_string
c_string-name [] rest h = refl
c_string-name (b ∷ bs) rest (ne, h) =
    let nz : (b == 0) ≡ false = ground arith in rw (nz, c_string-name bs rest h) refl

display_event-name :
    (e : Event) (rest : Bytes)
    → All (λ b. b ≢ 0) e.name
    → 0 < e.nuls
    → display_event (header_of e) (name_field e ++ rest) ≡ some (shown e)
unfolding display_event shown
display_event-name e rest plain h =
    let split : suc (e.nuls - 1) ≡ e.nuls = omega arith in
    let positive : ltb 0 (length e.name + e.nuls) ≡ true = ground arith in
    let text : name_field e ++ rest ≡ e.name ++ (0 ∷ (replicate (e.nuls - 1) 0 ++ rest)) =
      append_assoc e.name (replicate e.nuls 0) rest
      ∙ ap (λ k. e.name ++ (replicate k 0 ++ rest)) (sym split) in
    rw (positive, text, c_string-name e.name (replicate (e.nuls - 1) 0 ++ rest) plain) refl

display_event-shown :
    (e : Event) (rest : Bytes)
    → Valid e
    → display_event (header_of e) (name_field e ++ rest) ≡ some (shown e)
unfolding display_event shown Valid
display_event-shown e rest (h1, h2, h3, h4, plain, inr some_nul) =
    display_event-name e rest plain some_nul
display_event-shown e rest (h1, h2, h3, h4, plain, inl no_name) = elim (Bool-cases (ltb 0 e.nuls)) [
  | inl h ↦ display_event-name e rest plain (ltb→lt 0 e.nuls h)
  | inr h ↦
      let empty : length e.name ≡ 0 = ap length no_name in
      let none_behind : ltb 0 (length e.name + e.nuls) ≡ false = ground (arith, empty) in
      rw (none_behind, append-nil) refl
]

drop-append {ℓ} : {A : Type ℓ} (xs ys : List A) → drop (length xs) (xs ++ ys) ≡ ys
drop-append [] ys = refl
drop-append (x ∷ xs) ys = drop-append xs ys

drop-name_field :
    (e : Event) (rest : Bytes) → drop (length e.name + e.nuls) (name_field e ++ rest) ≡ rest
drop-name_field e rest =
    let size : length (name_field e) ≡ length e.name + e.nuls = omega (
      arith,
      length-append e.name (replicate e.nuls 0),
      length-replicate e.nuls (let z : ℕ = 0 in z),
    ) in
    ap (λ k. drop k (name_field e ++ rest)) (sym size) ∙ drop-append (name_field e) rest

encode-length : (e : Event) (rest : Bytes) → length rest < length (encode e ++ rest)
unfolding encode
encode-length e rest = omega (arith, length-append (name_field e) rest)

module _ (tree : ℕ → Walk) where
  -- The events one after the other: each is printed, and the creation of a directory adds watches for
  -- the whole tree.
  unfoldable pub replay : List Event → State → Outcome
  replay [] s = waits s
  replay (e ∷ es) s =
      let t = print (shown e) s in
      let next = replay es t in
      if has e.mask in_create && has e.mask in_isdir
      then elim (nftw (tree s.walks) s.watched) [
        | none ↦ exits t
        | some ws ↦ replay es (record { out = t.out; watched = ws; walks = suc s.walks })
      ]
      else next

  event_at-encode :
      (e : Event) (rest : Bytes) (s : State)
      → Valid e
      → event_at tree s (header (encode e ++ rest)) ≡ (
          if has e.mask in_create && has e.mask in_isdir
          then watched_again tree (print (shown e) s) (nftw (tree s.walks) s.watched) rest
          else goes rest (print (shown e) s))
  event_at-encode e rest s h =
      rw (header-encode e rest h, display_event-shown e rest h, drop-name_field e rest) refl

  events-step :
      (fuel : ℕ) (b : Bytes) (s : State)
      → 0 < length b
      → events tree (suc fuel) b s
        ≡ elim (event_at tree s (header b)) [ goes rest t ↦ events tree fuel rest t | stops o ↦ o ]
  unfolding events
  events-step fuel [] s h = absurd (omega arith)
  events-step fuel (b ∷ bs) s h = refl

  events-nil : (fuel : ℕ) (s : State) → events tree (suc fuel) [] s ≡ waits s
  unfolding events
  events-nil fuel s = refl

  -- Of a buffer of events that are whole, each event is printed once and in order, and each creation of
  -- a directory adds watches for the whole tree before the next event is looked at.
  pub events-replay :
      (fuel : ℕ) (es : List Event) (s : State)
      → length (encode_all es) < fuel
      → All Valid es
      → events tree fuel (encode_all es) s ≡ replay es s
  unfolding encode_all replay
  events-replay zero es s h v = absurd (omega arith)
  events-replay (suc fuel) [] s h v = events-nil fuel s
  events-replay (suc fuel) (e ∷ es) s h (ve, v) =
      let longer : length (encode_all es) < length (encode e ++ encode_all es) =
        encode-length e (encode_all es) in
      let rest : (t : State) → events tree fuel (encode_all es) t ≡ replay es t =
        λ t. events-replay fuel es t (omega arith) v in
      rw
        (
          events-step fuel (encode e ++ encode_all es) s (omega arith),
          event_at-encode e (encode_all es) s ve,
        )
        (elim (Bool-cases (has e.mask in_create && has e.mask in_isdir)) [
          | inl c ↦ rw c (elim (Option-cases (nftw (tree s.walks) s.watched)) [
            | inl n ↦ rw n refl
            | inr (ws, n) ↦ rw n (rest _)
          ])
          | inr c ↦ rw c (rest _)
        ])
