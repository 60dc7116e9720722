-- ===== src/UsXfr/Tables.antt =====
-- The tables over the clients of abstract_ns, and what a client's table has up to a number.
use linux_programming.Base.{
  ℕ, zero, suc, ◌≤◌, ◌<◌, ◌≡◌, refl, sym, ap₂, inl, inr, false, [], ◌++◌, arith, ◌==◌, ==_refl,
  ==_iff, if◌then◌else◌, Bool-cases,
}
use mathlib.Core.Path.{subst}
use linux_programming.Base.Bytes.{Bytes}
use linux_programming.UsXfr.Steps.{Client, set_client}

-- `taken i` is what the server has read from client i.
abbrev pub Nothing : (ℕ → Bytes) → ℕ → Type 0
Nothing taken n = (i : ℕ) → n ≤ i → taken i ≡ []

-- f 0, ..., f (n - 1), one behind the other.
abbrev pub upto : (ℕ → Bytes) → ℕ → Bytes
upto f zero = []
upto f (suc n) = upto f n ++ f n

pub set_client-elim :
    (P : ℕ → Client → Type 0) (i : ℕ) (c : Client) (cs : ℕ → Client)
    → P i c
    → ((k : ℕ) → P k (cs k))
    → (k : ℕ) → P k (set_client i c cs k)
set_client-elim P i c cs new old k = elim (Bool-cases (k == i)) [
  | inl e ↦ (let same = (==_iff k i).0 e in rw (e) (subst (λ j. P j c) (sym same) new))
  | inr e ↦ rw (e) (old k)
]

abbrev pub set_taken : ℕ → Bytes → (ℕ → Bytes) → ℕ → Bytes
set_taken i b f k = if k == i then b else f k

pub upto-set_taken :
    (i : ℕ) (b : Bytes) (f : ℕ → Bytes) (n : ℕ) → n ≤ i → upto (set_taken i b f) n ≡ upto f n
upto-set_taken i b f zero h = refl
upto-set_taken i b f (suc n) h =
    let other : (n == i) ≡ false = ground arith in
    rw (upto-set_taken i b f n (omega arith), other) refl

pub set_both-elim :
    (P : ℕ → Bytes → Client → Type 0) (i : ℕ) (b : Bytes) (c : Client) (taken : ℕ → Bytes)
    (cs : ℕ → Client)
    → P i b c
    → ((k : ℕ) → P k (taken k) (cs k))
    → (k : ℕ) → P k (set_taken i b taken k) (set_client i c cs k)
set_both-elim P i b c taken cs new old k = elim (Bool-cases (k == i)) [
  | inl e ↦ rw (e) (subst (λ j. P j b c) (sym ((==_iff k i).0 e)) new)
  | inr e ↦ rw (e) (old k)
]

pub set_taken-Nothing :
    (i n : ℕ) (b : Bytes) (taken : ℕ → Bytes)
    → i < n
    → Nothing taken n
    → Nothing (set_taken i b taken) n
set_taken-Nothing i n b taken lt nothing k h =
    let other : (k == i) ≡ false = ground arith in rw other (nothing k h)

pub set_taken_self : (i : ℕ) (b : Bytes) (taken : ℕ → Bytes) → set_taken i b taken i ≡ b
set_taken_self i b taken = rw (==_refl i) refl

pub upto-cong : (f g : ℕ → Bytes) (n : ℕ) → ((i : ℕ) → i < n → f i ≡ g i) → upto f n ≡ upto g n
upto-cong f g zero h = refl
upto-cong f g (suc n) h =
    ap₂ (λ x y. x ++ y) (upto-cong f g n (λ i lt. h i (omega arith))) (h n (omega arith))
