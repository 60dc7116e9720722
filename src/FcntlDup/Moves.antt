-- ===== src/FcntlDup/Moves.antt =====
-- mydup and mydup2 against dup2.
use mathlib.Core.Path.{subst}
use linux_programming.Base.{
  ℕ, zero, suc, ◌+◌, ◌-◌, ◌<◌, ◌≡◌, ◌≢◌, refl, sym, ap, ◌∙◌, inl, inr, true, false, Bool-cases,
  Option, none, some, arith, ◌==◌, ==_refl, if◌then◌else◌, is_none, unwrap,
}
use linux_programming.FcntlDup.{
  Table, close, refer, first_free, fcntl_dupfd, Dup, returned, exits, moved, mydup, mydup2,
}

-- The table behind dup2(oldfd, newfd), which leaves oldfd as it is.
abbrev pub dup2_table : ℕ → ℕ → Table → Table
dup2_table oldfd newfd t k = if k == newfd then t oldfd else t k

-- The `k` descriptors from `from` on are in use.
abbrev pub InUse : ℕ → ℕ → Table → Type 0
InUse zero from t = Unit
InUse (suc k) from t = (is_none (t from) ≡ false) × InUse k (suc from) t

-- `fd` is the first free descriptor from `from` on.
abbrev pub LowestFree : ℕ → ℕ → Table → Type 0
LowestFree from fd t = (k : ℕ) × (fd ≡ from + k) × InUse k from t × (t fd ≡ none)

is_none-none : (o : Option ℕ) → is_none o ≡ true → o ≡ none
is_none-none none h = refl
is_none-none (some x) h = ground arith

first_free-LowestFree :
    (n from fd : ℕ) (t : Table) → first_free n from t ≡ some fd → LowestFree from fd t
unfolding first_free
first_free-LowestFree zero from fd t h = ground arith
first_free-LowestFree (suc n) from fd t h = elim (Bool-cases (is_none (t from))) [
  | inl e ↦
      let same : from ≡ fd = unwrap (rw (e, first_free) at h) in
      (0, omega (arith, same), tt, subst (λ k. t k ≡ none) same (is_none-none (t from) e))
  | inr e ↦
      let (k, at, used, free) = first_free-LowestFree n (suc from) fd t (rw (e, first_free) at h) in
      (suc k, omega (arith, at), (e, used), free)
]

first_free_here : (n fd : ℕ) (t : Table) → 0 < n → t fd ≡ none → first_free n fd t ≡ some fd
unfolding first_free
first_free_here zero fd t h e = ground arith
first_free_here (suc n) fd t h e = rw (e) refl

-- What mydup and mydup2 leave: dup2, with the old descriptor closed.
abbrev pub IsMoved : ℕ → ℕ → Table → Table → Type 0
IsMoved oldfd newfd t u = (k : ℕ) → u k ≡ (if k == oldfd then none else dup2_table oldfd newfd t k)

abbrev number_of : ℕ → Dup → ℕ
number_of n (returned fd t) = fd
number_of n exits = n

abbrev table_of : Table → Dup → Table
table_of u (returned fd t) = t
table_of u exits = u

moved-returned :
    (oldfd : ℕ) (res : Option ℕ) (newfd : ℕ) (t u : Table)
    → moved oldfd res t ≡ returned newfd u
    → (res ≡ some newfd) × (u ≡ close oldfd (refer newfd (t oldfd) t))
moved-returned oldfd none newfd t u h = ground arith
moved-returned oldfd (some fd) newfd t u h =
    let same : fd ≡ newfd = ap (number_of 0) h in
    let tables = ap (table_of t) h in
    (ap some same, sym (subst (λ n. close oldfd (refer n (t oldfd) t) ≡ u) same tables))

fcntl_dupfd-first_free :
    (limit oldfd from fd : ℕ) (t : Table)
    → fcntl_dupfd limit oldfd from t ≡ some fd
    → first_free (limit - from) from t ≡ some fd
unfolding fcntl_dupfd
fcntl_dupfd-first_free limit oldfd from fd t h = ground arith

-- mydup returns the first descriptor from `from` on that is free, refers it to the file of the old one,
-- which it closes, and changes no other.
pub mydup-IsMoved :
    (limit from oldfd newfd : ℕ) (t u : Table)
    → mydup limit from oldfd t ≡ returned newfd u
    → LowestFree from newfd t × IsMoved oldfd newfd t u
unfolding mydup
mydup-IsMoved limit from oldfd newfd t u h =
    let (got, same) = moved-returned oldfd (fcntl_dupfd limit oldfd from t) newfd t u h in
    (
      first_free-LowestFree (limit - from) from newfd t
          (fcntl_dupfd-first_free limit oldfd from newfd t got),
      λ k. ap (λ v. v k) same,
    )

-- The table behind the close of mydup2.
abbrev emptied : ℕ → Table → Table
emptied newfd t = if is_none (t newfd) then t else close newfd t

emptied-free : (newfd : ℕ) (t : Table) → emptied newfd t newfd ≡ none
emptied-free newfd t = elim (Bool-cases (is_none (t newfd))) [
  | inl e ↦ rw (e) (is_none-none (t newfd) e)
  | inr e ↦ rw (e, ==_refl newfd) refl
]

emptied-same : (newfd k : ℕ) (t : Table) → (k == newfd) ≡ false → emptied newfd t k ≡ t k
emptied-same newfd k t other = elim (Bool-cases (is_none (t newfd))) [
  | inl e ↦ rw (e) refl
  | inr e ↦ rw (e, other) refl
]

dup_free :
    (limit oldfd newfd file : ℕ) (u : Table)
    → u oldfd ≡ some file
    → u newfd ≡ none
    → newfd < limit
    → fcntl_dupfd limit oldfd newfd u ≡ some newfd
unfolding fcntl_dupfd
dup_free limit oldfd newfd file u opened free small =
    rw (opened) (first_free_here (limit - newfd) newfd u (omega arith) free)

table_lem :
    (oldfd newfd k : ℕ) (t : Table)
    → emptied newfd t oldfd ≡ t oldfd
    → close oldfd (refer newfd (emptied newfd t oldfd) (emptied newfd t)) k
      ≡ (if k == oldfd then none else dup2_table oldfd newfd t k)
table_lem oldfd newfd k t same = elim (Bool-cases (k == newfd)) [
  | inl e ↦ rw (e, same) refl
  | inr e ↦ rw (e, emptied-same newfd k t e) refl
]

-- mydup2 of a descriptor that is open, to another one below the limit, returns that one, and leaves the
-- table as dup2 does but for the old descriptor, which is closed.
pub mydup2-IsMoved :
    (limit oldfd newfd file : ℕ) (t : Table)
    → t oldfd ≡ some file
    → oldfd ≢ newfd
    → newfd < limit
    → (u : Table) × (mydup2 limit oldfd newfd t ≡ returned newfd u) × IsMoved oldfd newfd t u
unfolding mydup2
mydup2-IsMoved limit oldfd newfd file t opened ne small =
    let u = emptied newfd t in
    let free = emptied-free newfd t in
    let other : (oldfd == newfd) ≡ false = ground (arith, ne) in
    let same : u oldfd ≡ t oldfd = emptied-same newfd oldfd t other in
    let dup = dup_free limit oldfd newfd file u (same ∙ opened) free small in
    (
      close oldfd (refer newfd (u oldfd) u),
      rw (other, opened, dup) refl,
      λ k. table_lem oldfd newfd k t same,
    )
