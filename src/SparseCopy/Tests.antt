-- ===== src/SparseCopy/Tests.antt =====
-- cp_sparse.c at concrete inputs.
use linux_programming.Base.{◌≡◌, refl, true, [], ◌∷◌, ◌++◌, arith, replicate}
use linux_programming.SparseCopy.{Copy, got, Env, success, main}
use linux_programming.SparseCopy.Holes.{delivered, rstrip, main-rstrip}

-- Two reads: a hole across their border, and two NUL bytes at the end of the file.
abbrev holes : Env
holes = record {
  argc = 3;
  first_is_help = true;
  source_opens = true;
  destination_opens = true;
  junk = 0;
  writes = λ _. true;
  reads = got (7 ∷ 0 ∷ []) ∷ got (0 ∷ 8 ∷ 0 ∷ 0 ∷ []) ∷ [];
  source_closes = true;
  destination_closes = true;
}

holes_output :
    main holes
    ≡ success (record { out = record { contents = 7 ∷ 0 ∷ 0 ∷ 8 ∷ []; off = 4 }; null_seq_len = 2 })
unfolding main
holes_output = refl

main-strip_example :
    (c : Copy) × (main holes ≡ success c)
    × (c.out.contents ≡ rstrip (replicate 0 0 ++ delivered holes.reads))
unfolding delivered
main-strip_example = main-rstrip holes refl (refl, refl) (refl, refl) (λ n. refl) (omega arith)
