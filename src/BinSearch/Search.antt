-- ===== src/BinSearch/Search.antt =====
-- callexec2.c: what `binsearch` finds, and what `cmpfunc` says.
use sysprg.Prelude.{
  ℕ, zero, suc, ◌+◌, ◌-◌, ◌/◌, ◌≤◌, ◌<◌, ◌≡◌, ◌≢◌, Option, some, arith, dec_lt, ltb_ge, lt→ltb,
}
use sysprg.Prelude.Int.{ℤ, pos, negsuc, ◌≤ℤ◌, pos_part, neg_part}
use sysprg.BinSearch.{search_loop, binsearch, cmpfunc}

-- What a search for `x` in the places from `low` up to `top` is to answer.
pub data Answer (x : ℤ) (v : ℕ → ℤ) (low top : ℕ) : Option ℤ → Type 0 where
  found : (i : ℕ) → low ≤ i → i < top → v i ≡ x → Answer x v low top (some (pos i))
  missing : ((i : ℕ) → low ≤ i → i < top → v i ≢ x) → Answer x v low top (some (negsuc 0))

-- `v[0] <= v[1] ... <= v[n-1]`
abbrev pub Sorted : (ℕ → ℤ) → ℕ → Type 0
Sorted v n = (i j : ℕ) → i ≤ j → j < n → v i ≤ℤ v j

abbrev Lt : ℤ → ℤ → Type 0
Lt a b = pos_part a + neg_part b < pos_part b + neg_part a

below : (a b c : ℤ) → Lt a b → b ≤ℤ c → c ≢ a
below a b c h k e =
    let e1 : pos_part c ≡ pos_part a = cc in let e2 : neg_part c ≡ neg_part a = cc in omega arith

above : (a b c : ℤ) → Lt b a → c ≤ℤ b → c ≢ a
above a b c h k e =
    let e1 : pos_part c ≡ pos_part a = cc in let e2 : neg_part c ≡ neg_part a = cc in omega arith

same : (a b : ℤ) → ¬ Lt a b → ¬ Lt b a → b ≡ a
same a b h k = ground arith

module _ (x : ℤ) (v : ℕ → ℤ) (n : ℕ) (sorted : Sorted v n) where
  widen_left :
      {low top : ℕ} (mid : ℕ) {r : Option ℤ}
      → top ≤ n
      → mid < top
      → Lt x (v mid)
      → Answer x v low mid r
      → Answer x v low top r
  widen_left mid le lt h (found i a b e) = found i a (omega arith) e
  widen_left mid le lt h (missing none_left) = missing (λ i a b. elim (dec_lt i mid) [
    | yes l ↦ none_left i a l
    | no g ↦ below x (v mid) (v i) h (sorted mid i (omega arith) (omega arith))
  ])

  widen_right :
      {low top : ℕ} (mid : ℕ) {r : Option ℤ}
      → top ≤ n
      → low ≤ mid
      → mid < top
      → Lt (v mid) x
      → Answer x v (mid + 1) top r
      → Answer x v low top r
  widen_right mid le low_le lt h (found i a b e) = found i (omega arith) b e
  widen_right mid le low_le lt h (missing none_right) = missing (λ i a b. elim (dec_lt mid i) [
    | yes l ↦ none_right i (omega arith) b
    | no g ↦ above x (v mid) (v i) h (sorted i mid (omega arith) (omega arith))
  ])

  search_loop-Answer :
      (fuel low top : ℕ)
      → top ≤ n
      → top ≤ low + fuel
      → Answer x v low top (search_loop fuel x v low top)
  unfolding search_loop
  search_loop-Answer zero low top le enough =
      rw (ltb_ge low top (omega arith)) (missing (λ i a b. absurd (omega arith)))
  search_loop-Answer (suc fuel) low top le enough = elim (dec_lt low top) [
    | no g ↦ rw (ltb_ge low top (omega arith)) (missing (λ i a b. absurd (omega arith)))
    | yes l ↦
        let mid = (low + top - 1) / 2 in
        let a : low ≤ mid = omega arith in
        let b : mid < top = omega arith in
        rw (lt→ltb low top l)
          (elim (dec_lt (pos_part x + neg_part (v mid)) (pos_part (v mid) + neg_part x)) [
            | yes h ↦ rw (lt→ltb _ _ h) (
                widen_left mid le b h (search_loop-Answer fuel low mid (omega arith) (omega arith)))
            | no h ↦
                rw
                  (ltb_ge (pos_part x + neg_part (v mid)) (pos_part (v mid) + neg_part x)
                    (omega arith))
                  (elim (dec_lt (pos_part (v mid) + neg_part x) (pos_part x + neg_part (v mid))) [
                    | yes k ↦ rw (lt→ltb _ _ k) (
                        widen_right mid le a b k
                          (search_loop-Answer fuel (mid + 1) top le (omega arith)))
                    | no k ↦
                        rw
                          (ltb_ge (pos_part (v mid) + neg_part x) (pos_part x + neg_part (v mid))
                            (omega arith))
                          (found mid a b (same x (v mid) h k))
                  ])
          ])
  ]

  -- If the first `n` values ascend, `binsearch` ends within `n` rounds: with an index below `n` at
  -- which `x` stands, or with -1, and then `x` is at none of them.
  pub binsearch-Answer : Answer x v 0 n (binsearch x v n)
  unfolding binsearch
  binsearch-Answer = search_loop-Answer n 0 n (omega arith) (omega arith)

-- No two numbers satisfy what `qsort` asks of a comparison, that its sign turns with its arguments:
-- the two results are never both 0 and never of different signs.
pub cmpfunc_lem : (c1 c2 : ℤ) → 1 ≤ cmpfunc c1 c2 + cmpfunc c2 c1
unfolding cmpfunc
cmpfunc_lem c1 c2 = ground arith
