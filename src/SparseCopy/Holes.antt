-- ===== src/SparseCopy/Holes.antt =====
-- What the copy of cp_sparse.c holds.
use linux_programming.Base.{
  ℕ, zero, suc, ◌+◌, ◌%◌, ◌^◌, ◌<◌, ◌≡◌, refl, sym, ap, ◌∙◌, inl, inr, Bool, true, false, List, [],
  ◌∷◌, ◌++◌, arith, ltb, ◌==◌, if◌then◌else◌, length, length-append, length-replicate, replicate,
  append_assoc, append-nil, Bool-cases,
}
use linux_programming.Base.Bytes.{Bytes}
use linux_programming.SparseCopy.{
  OutFile, put, Copy, lseek_cur, write_byte, copy_byte, copy_buffer, Read, got, failed, copy_loop,
  Env, success, main,
}

-- The bytes that a sequence of reads delivers before it ends or fails.
unfoldable pub delivered : List Read → Bytes
delivered [] = []
delivered (failed ∷ rs) = []
delivered (got [] ∷ rs) = []
delivered (got (b ∷ bs) ∷ rs) = (b ∷ bs) ++ delivered rs

put-append : (xs : Bytes) (n b : ℕ) → put xs (length xs + n) b ≡ xs ++ (replicate n 0 ++ b ∷ [])
put-append [] zero b = refl
put-append [] (suc n) b =
    let e : 0 + suc n ≡ suc (0 + n) = omega arith in rw e (ap (λ l. 0 ∷ l) (put-append [] n b))
put-append (x ∷ xs) n b =
    let e : suc (length xs) + n ≡ suc (length xs + n) = omega arith in
    rw e (ap (λ l. x ∷ l) (put-append xs n b))

length-put-end :
    (xs : Bytes) (n b : ℕ) → length (xs ++ (replicate n 0 ++ b ∷ [])) ≡ length xs + n + 1
length-put-end xs n b = omega (
  arith,
  length-append xs (replicate n 0 ++ b ∷ []),
  length-append (replicate n 0) (b ∷ []),
  length-replicate n (let z : ℕ = 0 in z),
)

replicate-end : (n : ℕ) → replicate n (let z : ℕ = 0 in z) ++ 0 ∷ [] ≡ 0 ∷ replicate n 0
replicate-end zero = refl
replicate-end (suc n) = ap (λ l. 0 ∷ l) (replicate-end n)

abbrev last_is_nul : Bytes → Bool
last_is_nul [] = false
last_is_nul (x ∷ []) = x == 0
last_is_nul (x ∷ y ∷ xs) = last_is_nul (y ∷ xs)

last_is_nul-end : (xs : Bytes) (b : ℕ) → last_is_nul (xs ++ b ∷ []) ≡ (b == 0)
last_is_nul-end [] b = refl
last_is_nul-end (x ∷ []) b = refl
last_is_nul-end (x ∷ y ∷ xs) b = last_is_nul-end (y ∷ xs) b

-- The bytes without the NUL bytes at the end.
unfoldable pub rstrip : Bytes → Bytes
rstrip [] = []
rstrip (x ∷ xs) = elim (rstrip xs) [ [] ↦ if x == 0 then [] else x ∷ [] | y ∷ ys ↦ x ∷ y ∷ ys ]

rstrip-replicate : (n : ℕ) → rstrip (replicate n 0) ≡ []
unfolding rstrip
rstrip-replicate zero = refl
rstrip-replicate (suc n) = rw (rstrip-replicate n)

rstrip-append-replicate :
    (xs : Bytes) (n : ℕ) → last_is_nul xs ≡ false → rstrip (xs ++ replicate n 0) ≡ xs
unfolding rstrip
rstrip-append-replicate [] n h = rstrip-replicate n
rstrip-append-replicate (x ∷ []) n h = rw (rstrip-replicate n, rstrip, h)
rstrip-append-replicate (x ∷ y ∷ xs) n h = rw (rstrip-append-replicate (y ∷ xs) n h, rstrip)

-- `c` has dealt with the bytes `xs`: those written and the NUL bytes held back are all of them.
pub record IsCopy (xs : Bytes) (c : Copy) : Type 0 where
  pub all : c.out.contents ++ replicate c.null_seq_len 0 ≡ xs
  pub at_end : c.out.off ≡ length c.out.contents
  pub trimmed : last_is_nul c.out.contents ≡ false

IsCopy-length :
    {xs : Bytes} {c : Copy} → IsCopy xs c → length xs ≡ length c.out.contents + c.null_seq_len
IsCopy-length {xs} {c} v = omega (
  arith,
  ap length v.all,
  length-append c.out.contents (replicate c.null_seq_len 0),
  length-replicate c.null_seq_len (let z : ℕ = 0 in z),
)

lseek_cur_lem :
    (f : OutFile) (n : ℕ) → f.off + n < 2 ^ 63 → lseek_cur f n ≡ record f { off = f.off + n }
unfolding lseek_cur
lseek_cur_lem f n h = ground arith

module _ (writes : ℕ → Bool) (all_writes : (n : ℕ) → writes n ≡ true) where
  write_byte_lem :
      (f : OutFile) (b : ℕ)
      → write_byte writes f b ≡ record { contents = put f.contents f.off b; off = f.off + 1 }
  unfolding write_byte
  write_byte_lem f b = rw (all_writes f.off)

  -- A byte that is written goes behind the NUL bytes held back.
  flush-IsCopy :
      {xs : Bytes} (contents : Bytes) (off n b : ℕ)
      → contents ++ replicate n 0 ≡ xs
      → off ≡ length contents
      → (b == 0) ≡ false
      → IsCopy (xs ++ b ∷ []) (record {
        out = record { contents = put contents (off + n) b; off = off + n + 1 };
        null_seq_len = 0;
      })
  flush-IsCopy {xs} contents off n b all end other = record {
    all =
        append-nil _
        ∙ rw (end, put-append contents n b, ← all, append_assoc contents (replicate n 0) (b ∷ []));
    at_end = rw (end, put-append contents n b) (omega (arith, length-put-end contents n b));
    trimmed =
        rw (end, put-append contents n b, ← append_assoc contents (replicate n 0) (b ∷ []))
          (last_is_nul-end (contents ++ replicate n 0) b ∙ other);
  }

  copy_byte-IsCopy :
      {xs : Bytes} {c : Copy} (b : ℕ)
      → length xs + 1 < 2 ^ 63
      → IsCopy xs c
      → IsCopy (xs ++ b ∷ []) (copy_byte writes c b)
  unfolding copy_byte
  copy_byte-IsCopy {xs} {c} b small v = elim (Bool-cases (b == 0)) [
    | inl nul ↦
        let e : b ≡ 0 = ground arith in
        let m : (c.null_seq_len + 1) % 2 ^ 64 ≡ suc c.null_seq_len =
          omega (arith, IsCopy-length v) in
        rw (nul, e)
          (record {
            all =
                rw
                  (
                    m,
                    ← replicate-end c.null_seq_len,
                    ← append_assoc c.out.contents (replicate c.null_seq_len 0) (0 ∷ []),
                  )
                  (ap (λ l. l ++ 0 ∷ []) v.all);
            at_end = v.at_end;
            trimmed = v.trimmed;
          })
    | inr other ↦ elim (Bool-cases (ltb 0 c.null_seq_len)) [
      | inl held ↦
          rw
            (
              other,
              held,
              lseek_cur_lem c.out c.null_seq_len (omega (arith, IsCopy-length v, v.at_end)),
              write_byte_lem,
            )
            (flush-IsCopy c.out.contents c.out.off c.null_seq_len b v.all v.at_end other)
      | inr none_held ↦
          let z : c.null_seq_len ≡ 0 = ground arith in
          let o : c.out.off + 0 ≡ c.out.off = omega arith in
          rw (other, none_held, write_byte_lem, z)
            (rw o at (flush-IsCopy c.out.contents c.out.off 0 b (rw z at v.all) v.at_end other))
    ]
  ]

  copy_buffer-IsCopy :
      (bs : Bytes) {xs : Bytes} {c : Copy}
      → length xs + length bs < 2 ^ 63
      → IsCopy xs c
      → IsCopy (xs ++ bs) (copy_buffer writes c bs)
  unfolding copy_buffer
  copy_buffer-IsCopy [] small v = rw append-nil v
  copy_buffer-IsCopy (b ∷ bs) {xs} {c} small v = rw (append_assoc xs (b ∷ []) bs) at (
      copy_buffer-IsCopy bs (omega (arith, length-append xs (b ∷ [])))
        (copy_byte-IsCopy b (omega arith) v))

  copy_loop-IsCopy :
      (rs : List Read) {xs : Bytes} {c : Copy}
      → length xs + length (delivered rs) < 2 ^ 63
      → IsCopy xs c
      → IsCopy (xs ++ delivered rs) (copy_loop writes c rs)
  unfolding copy_loop delivered
  copy_loop-IsCopy [] small v = rw append-nil v
  copy_loop-IsCopy (failed ∷ rs) small v = rw append-nil v
  copy_loop-IsCopy (got [] ∷ rs) small v = rw append-nil v
  copy_loop-IsCopy (got (b ∷ bs) ∷ rs) {xs} {c} small v =
      let n = length-append (b ∷ bs) (delivered rs) in
      rw (append_assoc xs (b ∷ bs) (delivered rs)) at (
        copy_loop-IsCopy rs (omega (arith, n, length-append xs (b ∷ bs)))
          (copy_buffer-IsCopy (b ∷ bs) (omega (arith, n)) v))

-- Given the arguments, and calls that succeed, the destination ends up with the bytes that the reads
-- deliver, behind as many NUL bytes as `nullSeqLen` says at the start, less all NUL bytes at the end.
pub main-rstrip :
    (e : Env)
    → e.argc ≡ 3
    → (e.source_opens ≡ true) × (e.destination_opens ≡ true)
    → (e.source_closes ≡ true) × (e.destination_closes ≡ true)
    → ((n : ℕ) → e.writes n ≡ true)
    → e.junk + length (delivered e.reads) < 2 ^ 63
    → (c : Copy) × (main e ≡ success c)
      × (c.out.contents ≡ rstrip (replicate e.junk 0 ++ delivered e.reads))
unfolding main
main-rstrip e args opens closes all_writes small =
    let start : Copy = record { out = record { contents = []; off = 0 }; null_seq_len = e.junk } in
    let begin : IsCopy (replicate e.junk 0) start = record {
      all = refl;
      at_end = refl;
      trimmed = refl;
    } in
    let v =
      copy_loop-IsCopy e.writes all_writes e.reads {xs = replicate e.junk 0} {c = start}
        (omega (arith, length-replicate e.junk (let z : ℕ = 0 in z))) begin in
    (
      copy_loop e.writes start e.reads,
      ground arith,
      rw (← v.all) (sym (rstrip-append-replicate _ _ v.trimmed)),
    )
