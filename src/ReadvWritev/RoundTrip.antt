-- ===== src/ReadvWritev/RoundTrip.antt =====
-- my_readv behind my_writev.
use linux_programming.Base.{
  ℕ, ◌+◌, ◌-◌, ◌^◌, min, ◌<◌, ◌≡◌, refl, sym, ap, ◌∙◌, false, List, [], ◌∷◌, ◌++◌, append_assoc,
  append-nil, map, some, arith, leb, length, length-append, take, drop,
}
use linux_programming.Base.Int.{pos}
use linux_programming.Base.Bytes.{Bytes}
use linux_programming.ReadvWritev.{
  ssize_max, Out, In, wrote, write_bufs, my_writev, more, read_bufs, my_readv,
}

unfoldable pub concat : List Bytes → Bytes
concat [] = []
concat (b ∷ bs) = b ++ concat bs

-- Writes and reads that transfer whole buffers.
abbrev pub whole_out : Bytes → Out
whole_out b = record { buf = b; written = some (length b) }

abbrev pub whole_in : Bytes → In
whole_in b = record { length = length b; got = some (length b) }

take_all : (xs : Bytes) → take (length xs) xs ≡ xs
take_all [] = refl
take_all (x ∷ xs) = ap (λ l. x ∷ l) (take_all xs)

take-append : (xs ys : Bytes) → take (length xs) (xs ++ ys) ≡ xs
take-append [] ys = refl
take-append (x ∷ xs) ys = ap (λ l. x ∷ l) (take-append xs ys)

drop-append : (xs ys : Bytes) → drop (length xs) (xs ++ ys) ≡ ys
drop-append [] ys = refl
drop-append (x ∷ xs) ys = drop-append xs ys

min_self : (n : ℕ) → min n n ≡ n
min_self n = omega arith

no_more : (n : ℕ) → n ≡ n + 0
no_more n = omega arith

write_bufs-concat :
    (bs : List Bytes) (total : ℕ) (file : Bytes)
    → total + length (concat bs) < 2 ^ 63 - 1
    → write_bufs (map whole_out bs) total file
      ≡ wrote (pos (total + length (concat bs))) (file ++ concat bs)
unfolding write_bufs concat
write_bufs-concat [] total file h =
    ap (λ n. wrote (pos n) file) (no_more total)
    ∙ ap (λ f. wrote (pos (total + 0)) f) (sym (append-nil file))
write_bufs-concat (b ∷ bs) total file h =
    let size = length-append b (concat bs) in
    let below : leb ssize_max (total + length b) ≡ false = ground arith in
    let sum : total + length b + length (concat bs) ≡ total + length (b ++ concat bs) =
      omega arith in
    rw (take_all b, below)
      (write_bufs-concat bs (total + length b) (file ++ b) (omega arith)
        ∙ (ap (λ n. wrote (pos n) (file ++ b ++ concat bs)) sum
            ∙ ap (λ f. wrote (pos (total + length (b ++ concat bs))) f)
                (append_assoc file b (concat bs))))

read_bufs-concat :
    (bs : List Bytes) (total : ℕ) (left : Bytes)
    → total + length (concat bs) < 2 ^ 63 - 1
    → read_bufs (map whole_in bs) total (concat bs ++ left)
      ≡ record { result = pos (total + length (concat bs)); bufs = bs; left = left }
unfolding read_bufs concat
read_bufs-concat [] total left h =
    ap (λ n. record { result = pos n; bufs = []; left = left }) (no_more total)
read_bufs-concat (b ∷ bs) total left h =
    let size = length-append b (concat bs) in
    let below : leb ssize_max (total + length b) ≡ false = ground arith in
    let sum : total + length b + length (concat bs) ≡ total + length (b ++ concat bs) =
      omega arith in
    rw
      (
        min_self (length b),
        append_assoc b (concat bs) left,
        take-append b (concat bs ++ left),
        drop-append b (concat bs ++ left),
        below,
      )
      (ap (more b) (read_bufs-concat bs (total + length b) left (omega arith))
        ∙ ap (λ n. record { result = pos n; bufs = b ∷ bs; left = left }) sum)

-- A gather write of some buffers to an empty file, followed by a scatter read into buffers of the same
-- lengths, gives the buffers back; both return the number of bytes, which are all in the file: where
-- every read and write transfers what it is asked for, and the bytes are fewer than SSIZE_MAX.
pub my_readv-my_writev :
    (b : Bytes) (bs : List Bytes)
    → length (concat (b ∷ bs)) < 2 ^ 63 - 1
    → (my_writev (map whole_out (b ∷ bs)) []
        ≡ wrote (pos (length (concat (b ∷ bs)))) (concat (b ∷ bs)))
      × (my_readv (map whole_in (b ∷ bs)) (concat (b ∷ bs))
          ≡ record { result = pos (length (concat (b ∷ bs))); bufs = b ∷ bs; left = [] })
unfolding my_writev my_readv
my_readv-my_writev b bs h =
    let all = b ∷ bs in
    let sum : 0 + length (concat all) ≡ length (concat all) = omega arith in
    (
      write_bufs-concat all 0 [] (omega arith) ∙ ap (λ n. wrote (pos n) (concat all)) sum,
      ap (read_bufs (map whole_in all) 0) (sym (append-nil (concat all)))
          ∙ (read_bufs-concat all 0 [] (omega arith)
              ∙ ap (λ n. record { result = pos n; bufs = all; left = [] }) sum),
    )
