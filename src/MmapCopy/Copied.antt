-- ===== src/MmapCopy/Copied.antt =====
-- What cp.c leaves in the files.
use mathlib.Core.Path.{subst}
use linux_programming.Base.{
  ℕ, zero, suc, ◌+◌, ◌-◌, ◌≤◌, ◌≡◌, refl, ap, ap₂, ◌∙◌, inl, inr, Bool, true, false, ◌&&◌,
  Bool-cases, [], ◌∷◌, ◌++◌, append-nil, some, arith, if◌then◌else◌, length, length-append,
  length-replicate, take, drop, take_all, drop_all, replicate,
}
use linux_programming.Base.Bytes.{Bytes, codes}
use linux_programming.Libc.Str.{str_eq, str_eq_refl, eq_of_str_eq}
use linux_programming.MmapCopy.{
  Files, store, contents, Calls, Result, failure, resize, create, truncate, copy, with_source, main,
}

abbrev pub all_succeed : Calls → Bool
all_succeed c =
    c.open_source && c.fstat && c.mmap_source && c.close && c.open_destination && c.ftruncate
    && c.mmap_destination && c.munmap_source && c.munmap_destination

store-same : (name bytes : Bytes) (fs : Files) → store name bytes fs name ≡ some bytes
store-same name bytes fs = rw (str_eq_refl name) refl

resize-length : (bytes : Bytes) → resize (length bytes) bytes ≡ bytes
resize-length bytes =
    let none_missing : length bytes - length bytes ≡ 0 = omega arith in
    rw (none_missing, take_all bytes) (append-nil bytes)

length-take_min : (n : ℕ) (xs : Bytes) → length (take n xs) + (n - length xs) ≤ n
length-take_min zero xs = omega arith
length-take_min (suc n) [] = omega arith
length-take_min (suc n) (x ∷ xs) = omega (arith, length-take_min n xs)

length-resize : (n : ℕ) (xs : Bytes) → length (resize n xs) ≤ n
length-resize n xs = omega (
  arith,
  length-append (take n xs) (replicate (n - length xs) 0),
  length-replicate {A = ℕ} (n - length xs) 0,
  length-take_min n xs,
)

-- The files behind ftruncate.
abbrev truncated : Bytes → Bytes → Files → Files
truncated bytes destination fs = truncate (length bytes) destination (create destination fs)

truncated-source :
    (source destination bytes : Bytes) (fs : Files)
    → fs source ≡ some bytes
    → truncated bytes destination fs source ≡ some bytes
truncated-source source destination bytes fs h = elim (Bool-cases (str_eq source destination)) [
  | inl e ↦
      let same = eq_of_str_eq source destination e in
      let there : fs destination ≡ some bytes = subst (λ d. fs d ≡ some bytes) same h in
      rw (e, str_eq_refl destination, there) (ap some (resize-length bytes))
  | inr e ↦ rw (e) h
]

truncated-destination :
    (destination bytes : Bytes) (fs : Files)
    → drop (length bytes) (contents (truncated bytes destination fs destination)) ≡ []
truncated-destination destination bytes fs = rw (str_eq_refl destination) (
    drop_all (length bytes) (resize (length bytes) (contents (fs destination)))
      (length-resize (length bytes) (contents (fs destination))))

-- Only the destination changes.
copied :
    (source destination bytes : Bytes) (fs : Files) (k : Bytes)
    → fs source ≡ some bytes
    → copy (length bytes) source destination (truncated bytes destination fs) k
      ≡ (if str_eq k destination then some bytes else fs k)
copied source destination bytes fs k h =
    let from_source : take (length bytes) (contents (truncated bytes destination fs source))
        ≡ bytes =
      ap (λ o. take (length bytes) (contents o)) (truncated-source source destination bytes fs h)
      ∙ take_all bytes in
    let whole =
      ap₂ (λ x y. x ++ y) from_source (truncated-destination destination bytes fs)
      ∙ append-nil bytes in
    elim (Bool-cases (str_eq k destination)) [
      | inl e ↦ rw (e) (ap some whole)
      | inr e ↦ rw (e) refl
    ]

-- What cp leaves for the contents of its source: an empty source is a failure without any change.
abbrev pub Copied : Bytes → Files → Bytes → Result → Type 0
Copied destination fs [] r = r ≡ failure fs
Copied destination fs (b ∷ bytes) r =
    (r.status ≡ 0)
    × ((k : Bytes) → r.files k ≡ (if str_eq k destination then some (b ∷ bytes) else fs k))

with_source-Copied :
    (c : Calls) (source destination bytes : Bytes) (fs : Files)
    → all_succeed c ≡ true
    → fs source ≡ some bytes
    → Copied destination fs bytes (with_source c source destination (some bytes) fs)
with_source-Copied c source destination [] fs ok h = ground arith
with_source-Copied c source destination (b ∷ bytes) fs ok h =
    let opens : (c.open_source && c.fstat && c.mmap_source && c.close) ≡ true =
      ground (arith, ok) in
    let open2 : c.open_destination ≡ true = ground (arith, ok) in
    let trunc : c.ftruncate ≡ true = ground (arith, ok) in
    let mmap2 : c.mmap_destination ≡ true = ground (arith, ok) in
    let unmap : (c.munmap_source && c.munmap_destination) ≡ true = ground (arith, ok) in
    rw (opens, open2, trunc, mmap2, unmap) (refl, λ k. copied source destination (b ∷ bytes) fs k h)

-- Where the calls succeed, the destination gets the bytes of the source, whatever it held before, and also
-- where it is the source itself, and no other file changes; but a source without bytes is a failure that
-- changes nothing.
pub main-Copied :
    (c : Calls) (source destination bytes : Bytes) (fs : Files)
    → all_succeed c ≡ true
    → str_eq source (codes "--help") ≡ false
    → fs source ≡ some bytes
    → Copied destination fs bytes (main c (source ∷ destination ∷ []) fs)
unfolding main
main-Copied c source destination bytes fs ok plain h =
    rw (plain, h) (with_source-Copied c source destination bytes fs ok h)
