-- ===== src/ApproxCounter/Accuracy.antt =====
-- apprxcntr.c: how far `get` may lag behind.
use sysprg.Prelude.{
  ℕ, zero, suc, ◌+◌, ◌*◌, ◌%◌, ◌≤◌, ◌<◌, ◌≡◌, refl, List, [], ◌∷◌, update, arith, leb, Bool-cases,
  ◌∙◌, inl, inr,
}
use sysprg.Prelude.Sums.{sum, sum-update}
use sysprg.ApproxCounter.{Counter, init, update_count, update_each, get, numcpus}

-- The amounts of a row of calls.
abbrev pub amounts : List (ℕ × ℕ) → ℕ
amounts [] = 0
amounts ((thread_id, amt) ∷ calls) = amt + amounts calls

sum_bound : (n t : ℕ) (f : ℕ → ℕ) → ((i : ℕ) → f i < t) → sum n f + n ≤ n * t
sum_bound zero t f h = omega arith
sum_bound (suc n) t f h = grind (arith, sum_bound n t f h, h n)

-- Nothing is lost, and each local count is below the threshold.
pub record Exact (c : Counter) (total : ℕ) : Type 0 where
  pub kept : c.global_count + sum numcpus c.local ≡ total
  pub below : (i : ℕ) → c.local i < c.threshold

module _ {c : Counter} {total : ℕ} (h : Exact c total) (thread_id amt : ℕ) where
  abbrev cpu : ℕ
  cpu = thread_id % numcpus

  positive : 0 < c.threshold
  positive = omega (arith, h.below 0)

  local-below : (v : ℕ) → v < c.threshold → (i : ℕ) → update c.local cpu v i < c.threshold
  local-below v lt i = ground (arith, h.below i)

  update_count-Exact : Exact (update_count c thread_id amt) (total + amt)
  unfolding update_count
  update_count-Exact = elim (Bool-cases (leb c.threshold (c.local cpu + amt))) [
    | inl e ↦ rw e (record {
      kept = omega (arith, h.kept, sum-update numcpus cpu 0 c.local (omega arith));
      below = local-below 0 positive;
    })
    | inr e ↦ rw e (record {
      kept =
          omega (arith, h.kept, sum-update numcpus cpu (c.local cpu + amt) c.local (omega arith));
      below = local-below (c.local cpu + amt) (ground arith);
    })
  ]

update_each-Exact :
    (calls : List (ℕ × ℕ)) {c : Counter} {total : ℕ}
    → Exact c total
    → Exact (update_each c calls) (total + amounts calls)
unfolding update_each
update_each-Exact [] {c} {total} h = record { kept = omega (arith, h.kept); below = h.below }
update_each-Exact ((thread_id, amt) ∷ calls) {c} {total} h =
    let h' = update_each-Exact calls (update_count-Exact h thread_id amt) in
    record { kept = omega (arith, h'.kept); below = h'.below }

update_each-threshold :
    (calls : List (ℕ × ℕ)) (c : Counter) → (update_each c calls).threshold ≡ c.threshold
unfolding update_each update_count
update_each-threshold [] c = refl
update_each-threshold ((thread_id, amt) ∷ calls) c =
    update_each-threshold calls (update_count c thread_id amt) ∙ ground arith

init-Exact : (threshold : ℕ) → 0 < threshold → Exact (init threshold) 0
unfolding init
init-Exact threshold h = record { kept = refl; below = λ i. h }

-- After any row of `update`s of a new counter with a positive threshold, the global and the local
-- counts together are the sum of the amounts; so `get` never exceeds it, and lags behind it by at
-- most 8 * (threshold - 1).
pub get-update_each :
    (threshold : ℕ) (calls : List (ℕ × ℕ))
    → 0 < threshold
    → (get (update_each (init threshold) calls)
          + sum numcpus (update_each (init threshold) calls).local
        ≡ amounts calls)
      × (get (update_each (init threshold) calls) ≤ amounts calls)
      × (amounts calls + numcpus ≤ get (update_each (init threshold) calls) + numcpus * threshold)
unfolding get init
get-update_each threshold calls pos =
    let h = update_each-Exact calls (init-Exact threshold pos) in
    let e = update_each-threshold calls (init threshold) in
    let b =
      sum_bound numcpus (update_each (init threshold) calls).threshold
        (update_each (init threshold) calls).local h.below in
    (omega (arith, h.kept), omega (arith, h.kept), omega (arith, h.kept, e, b))
