-- ===== src/ApproxCounter/Overlap.antt =====
-- apprxcntr.c: what `get` may return while calls of `update` are under way.
use sysprg.Prelude.{ℕ, zero, suc, ◌+◌, ◌*◌, ◌≤◌, ◌<◌, ◌≡◌, ◌≢◌, refl, arith, ℕ_discrete, dec_lt}
use sysprg.Prelude.Reach.{Reach, Reach-keeps}
use sysprg.Prelude.Sums.{sum, sum_change, sum_below}
use sysprg.ApproxCounter.{init, get, numcpus}
use sysprg.ApproxCounter.Calls.{
  Phase, free, testing, waiting, moving, moved, clearing, System, start, Step, take_llock, add,
  below, reached, take_glock, transfer, give_glock, clear, give_llock,
}

-- What a CPU has that is not in the global count: nothing between the transfer and the reset.
abbrev pub pending : Phase → ℕ → ℕ
pending moved count = 0
pending clearing count = 0
pending _ count = count

-- The amount by which a local count may have passed the threshold.
abbrev pub in_flight : Phase → ℕ
in_flight (testing amt) = amt
in_flight (waiting amt) = amt
in_flight (moving amt) = amt
in_flight _ = 0

abbrev pub pendings : System → ℕ → ℕ
pendings s i = pending (s.phase i) (s.counter.local i)

abbrev pub in_flights : System → ℕ → ℕ
in_flights s i = in_flight (s.phase i)

record Inv (threshold : ℕ) (s : System) : Type 0 where
  positive : 0 < threshold
  same : s.counter.threshold ≡ threshold
  idle : (i : ℕ) → numcpus ≤ i → s.phase i ≡ free
  kept : s.counter.global_count + sum numcpus (pendings s) ≡ s.total
  bound : (i : ℕ) → pendings s i < threshold + in_flights s i

-- A state in which only the phase and the local count of CPU `i` are changed.
record ChangedAt (i : ℕ) (s t : System) : Type 0 where
  threshold : t.counter.threshold ≡ s.counter.threshold
  phase : (j : ℕ) → i ≢ j → t.phase j ≡ s.phase j
  local : (j : ℕ) → i ≢ j → t.counter.local j ≡ s.counter.local j

keep-Inv :
    {threshold i : ℕ} {s t : System}
    → i < numcpus
    → ChangedAt i s t
    → t.counter.global_count + pendings t i + s.total
      ≡ s.counter.global_count + pendings s i + t.total
    → pendings t i < threshold + in_flights t i
    → Inv threshold s
    → Inv threshold t
keep-Inv {threshold} {i} {s} {t} lt c balance bound_i inv = record {
  positive = inv.positive;
  same = omega (arith, c.threshold, inv.same);
  idle = λ j h. let ne : i ≢ j = omega arith in ground (arith, c.phase j ne, inv.idle j);
  kept = omega (
    arith,
    sum_change numcpus i (pendings s) (pendings t) lt
        (λ j ne. ground (arith, c.phase j ne, c.local j ne)),
    inv.kept,
  );
  bound = λ j. elim (ℕ_discrete i j) [
    | yes e ↦ rw (← e) bound_i
    | no ne ↦ ground (arith, c.phase j ne, c.local j ne, inv.bound j)
  ];
}

busy-lt : {threshold : ℕ} {s : System} (i : ℕ) → Inv threshold s → s.phase i ≢ free → i < numcpus
busy-lt i inv busy = elim (dec_lt i 8) [
  | yes lt ↦ lt
  | no ge ↦ absurd (busy (inv.idle i (omega arith)))
]

Step-Inv : (threshold : ℕ) (s t : System) → Step s t → Inv threshold s → Inv threshold t
Step-Inv threshold s t (take_llock i id amt m e) inv =
    keep-Inv {i = i} (omega arith)
      (record { threshold = refl; phase = λ j ne. ground arith; local = λ j ne. refl })
      (ground arith) (ground (arith, inv.bound i)) inv
Step-Inv threshold s t (add i amt e) inv =
    keep-Inv {i = i} (busy-lt i inv (λ f. cc))
      (record { threshold = refl; phase = λ j ne. ground arith; local = λ j ne. ground arith })
      (ground arith) (ground (arith, inv.bound i, inv.positive, inv.same)) inv
Step-Inv threshold s t (below i amt e lt) inv =
    keep-Inv {i = i} (busy-lt i inv (λ f. cc))
      (record { threshold = refl; phase = λ j ne. ground arith; local = λ j ne. ground arith })
      (ground arith) (ground (arith, inv.bound i, inv.positive, inv.same)) inv
Step-Inv threshold s t (reached i amt e ge) inv =
    keep-Inv {i = i} (busy-lt i inv (λ f. cc))
      (record { threshold = refl; phase = λ j ne. ground arith; local = λ j ne. ground arith })
      (ground arith) (ground (arith, inv.bound i, inv.positive, inv.same)) inv
Step-Inv threshold s t (take_glock i amt e g) inv =
    keep-Inv {i = i} (busy-lt i inv (λ f. cc))
      (record { threshold = refl; phase = λ j ne. ground arith; local = λ j ne. ground arith })
      (ground arith) (ground (arith, inv.bound i, inv.positive, inv.same)) inv
Step-Inv threshold s t (transfer i amt e) inv =
    keep-Inv {i = i} (busy-lt i inv (λ f. cc))
      (record { threshold = refl; phase = λ j ne. ground arith; local = λ j ne. ground arith })
      (ground arith) (ground (arith, inv.bound i, inv.positive, inv.same)) inv
Step-Inv threshold s t (give_glock i e) inv =
    keep-Inv {i = i} (busy-lt i inv (λ f. cc))
      (record { threshold = refl; phase = λ j ne. ground arith; local = λ j ne. ground arith })
      (ground arith) (ground (arith, inv.bound i, inv.positive, inv.same)) inv
Step-Inv threshold s t (clear i e) inv =
    keep-Inv {i = i} (busy-lt i inv (λ f. cc))
      (record { threshold = refl; phase = λ j ne. ground arith; local = λ j ne. ground arith })
      (ground arith) (ground (arith, inv.bound i, inv.positive, inv.same)) inv
Step-Inv threshold s t (give_llock i e) inv =
    keep-Inv {i = i} (busy-lt i inv (λ f. cc))
      (record { threshold = refl; phase = λ j ne. ground arith; local = λ j ne. ground arith })
      (ground arith) (ground (arith, inv.bound i, inv.positive, inv.same)) inv

sum_zero : (n : ℕ) → sum n (λ i. 0) ≡ 0
sum_zero zero = refl
sum_zero (suc n) = omega (arith, sum_zero n)

start-Inv : (threshold : ℕ) → 0 < threshold → Inv threshold (start threshold)
unfolding start init
start-Inv threshold h = record {
  positive = h;
  same = refl;
  idle = λ i ge. refl;
  kept = omega (arith, sum_zero numcpus);
  bound = λ i. omega arith;
}

-- However the calls of `update` overlap, with a positive threshold: the global count and what the CPUs
-- have pending are together the amounts added so far. So what `get` reads never exceeds that sum, and
-- lags behind it by at most 8 * (threshold - 1) and the amounts of the calls that have added
-- theirs and have not compared or moved it yet.
pub get_bounds :
    (threshold : ℕ) (s : System)
    → 0 < threshold
    → Reach Step (start threshold) s
    → (get s.counter + sum numcpus (pendings s) ≡ s.total)
      × (get s.counter ≤ s.total)
      × (s.total + numcpus ≤ get s.counter + numcpus * threshold + sum numcpus (in_flights s))
unfolding get
get_bounds threshold s h r =
    let inv : Inv threshold s =
      Reach-keeps Step (Inv threshold) (Step-Inv threshold) (start-Inv threshold h) r in
    let b = sum_below numcpus threshold (pendings s) (in_flights s) inv.bound in
    (inv.kept, omega (arith, inv.kept), omega (arith, inv.kept, b))
