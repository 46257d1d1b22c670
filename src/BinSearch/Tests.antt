-- ===== src/BinSearch/Tests.antt =====
-- callexec2.c on small arrays.
use sysprg.Prelude.{◌≡◌, refl, some, arith}
use sysprg.Prelude.Int.{pos, negsuc}
use sysprg.BinSearch.{binsearch}
use sysprg.BinSearch.Search.{Answer, binsearch-Answer}

finds_47 : binsearch (pos 47) pos 64 ≡ some (pos 47)
unfolding binsearch
finds_47 = refl

misses : binsearch (negsuc 3) pos 9 ≡ some (negsuc 0)
unfolding binsearch
misses = refl

binsearch-Answer_example : Answer (pos 47) pos 0 64 (binsearch (pos 47) pos 64)
binsearch-Answer_example = binsearch-Answer (pos 47) pos 64 (λ i j le lt. omega arith)
