-- ===== src/GetNum/Range.antt =====
-- Which arguments getLong and getInt accept.
use linux_programming.Base.{ℕ, ◌≡◌, refl, ◌↔◌, true, false, [], Option, arith}
use linux_programming.Base.Int.{ℤ, pos, negsuc, ◌≤ℤ◌}
use linux_programming.Base.Bytes.{Bytes, codes}
use linux_programming.Libc.Strtol.{Parsed, strtol}
use linux_programming.GetNum.{
  Outcome, returns, exits, ◌>>=◌, has_flag, gn_nonneg, gn_gt_0, is_empty, text_of, base_of,
  check_num, get_num, check_int, get_int, get_long, int_max,
}

-- `arg` is a number in the base that the flags choose, with nothing behind it, and `v` is its value.
pub record Accepts (arg : Option Bytes) (flags : ℕ) (v : ℤ) : Type 0 where
  pub given : is_empty arg ≡ false
  pub parsed :
      strtol (text_of arg) (base_of flags) ≡ record { value = v; rest = []; erange = false }
  pub nonneg : has_flag flags gn_nonneg ≡ true → pos 0 ≤ℤ v
  pub positive : has_flag flags gn_gt_0 ≡ true → pos 1 ≤ℤ v

check_num-returns :
    (fname : Bytes) (arg : Option Bytes) (flags : ℕ) (name : Option Bytes) (p : Parsed) {v : ℤ}
    → check_num fname arg flags name p ≡ returns v
    → (p ≡ record { value = v; rest = []; erange = false })
      × (has_flag flags gn_nonneg ≡ true → pos 0 ≤ℤ v)
      × (has_flag flags gn_gt_0 ≡ true → pos 1 ≤ℤ v)
unfolding check_num
check_num-returns fname arg flags name p h = (ground arith, ground arith, ground arith)

check_num-accepts :
    (fname : Bytes) (arg : Option Bytes) (flags : ℕ) (name : Option Bytes) {v : ℤ}
    → (has_flag flags gn_nonneg ≡ true → pos 0 ≤ℤ v)
    → (has_flag flags gn_gt_0 ≡ true → pos 1 ≤ℤ v)
    → check_num fname arg flags name (record { value = v; rest = []; erange = false }) ≡ returns v
unfolding check_num
check_num-accepts fname arg flags name nonneg positive = ground arith

no_text :
    (fname : Bytes) (arg : Option Bytes) (flags : ℕ) (name : Option Bytes) {v : ℤ}
    → get_num fname arg flags name ≡ returns v
    → is_empty arg ≡ false
unfolding get_num
no_text fname arg flags name h = ground arith

get_num-returns :
    (fname : Bytes) (arg : Option Bytes) (flags : ℕ) (name : Option Bytes) (v : ℤ)
    → (get_num fname arg flags name ≡ returns v) ↔ Accepts arg flags v
unfolding get_num
get_num-returns fname arg flags name v = (
  λ h.
      let given = no_text fname arg flags name h in
      let (parsed, nonneg, positive) =
        check_num-returns fname arg flags name (strtol (text_of arg) (base_of flags))
          (rw given at h) in
      record { given = given; parsed = parsed; nonneg = nonneg; positive = positive },
  λ a. rw (a.given, a.parsed) (check_num-accepts fname arg flags name a.nonneg a.positive),
)

-- getLong returns `v` exactly if the argument is a number of the base that the flags choose, in the
-- range of long and with nothing behind it, and the flags' bounds hold of `v`.
pub get_long-returns :
    (arg : Option Bytes) (flags : ℕ) (name : Option Bytes) (v : ℤ)
    → (get_long arg flags name ≡ returns v) ↔ Accepts arg flags v
unfolding get_long
get_long-returns arg flags name v = get_num-returns (codes "getLong") arg flags name v

>>=-returns :
    {A B : Type 0} (m : Outcome A) {f : A → Outcome B} {b : B}
    → (m >>= f) ≡ returns b
    → (a : A) × (m ≡ returns a) × (f a ≡ returns b)
>>=-returns (returns a) h = (a, refl, h)
>>=-returns (exits text status) h = cc

pub check_int_lem :
    (arg name : Option Bytes) (v : ℤ)
    → negsuc int_max ≤ℤ v
    → v ≤ℤ pos int_max
    → check_int arg name v ≡ returns v
unfolding check_int
check_int_lem arg name v lo hi = ground arith

check_int-returns :
    (arg name : Option Bytes) (res : ℤ) {v : ℤ}
    → check_int arg name res ≡ returns v
    → (res ≡ v) × (negsuc int_max ≤ℤ v) × (v ≤ℤ pos int_max)
unfolding check_int
check_int-returns arg name res h = (ground arith, ground arith, ground arith)

-- getInt returns `v` exactly if getLong accepts the argument with that value and it is in the range
-- of int.
pub get_int-returns :
    (arg : Option Bytes) (flags : ℕ) (name : Option Bytes) (v : ℤ)
    → (get_int arg flags name ≡ returns v)
      ↔ (Accepts arg flags v × (negsuc int_max ≤ℤ v) × (v ≤ℤ pos int_max))
unfolding get_int
get_int-returns arg flags name v = (
  λ h.
      let (w, long, int) = >>=-returns (get_num (codes "getInt") arg flags name) h in
      let (same, lo, hi) = check_int-returns arg name w int in
      ((get_num-returns (codes "getInt") arg flags name v).0 (rw same at long), lo, hi),
  λ (a, lo, hi).
      rw ((get_num-returns (codes "getInt") arg flags name v).1 a) (check_int_lem arg name v lo hi),
)
