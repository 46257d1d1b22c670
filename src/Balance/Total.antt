-- ===== src/Balance/Total.antt =====
-- main-race.c: both additions count.
use sysprg.Prelude.{ℕ, ◌+◌, ◌≡◌, ◌≢◌, ◌<◌, ◌≤◌, refl, ◌⊎◌, inl, inr, Bool, true, false, arith}
use sysprg.Prelude.Reach.{Reach, Reach-keeps, steps, steps_bounded}
use sysprg.Balance.{
  Pc, begin, locking, reading, writing, unlocking, joining, ended, Owner, nobody, by_main,
  by_worker, System, start, Step, create, main_lock, main_read, main_write, main_unlock, main_join,
  worker_lock, worker_read, worker_write, worker_unlock,
}

-- What a thread has added.
abbrev added : Pc → ℕ
added begin = 0
added locking = 0
added reading = 0
added (writing n) = 0
added unlocking = 1
added joining = 1
added ended = 1

-- Whether it has the mutex.
abbrev inside : Pc → Bool
inside begin = false
inside locking = false
inside reading = true
inside (writing n) = true
inside unlocking = true
inside joining = false
inside ended = false

abbrev owner : Bool → Bool → Owner
owner true w = by_main
owner false true = by_worker
owner false false = nobody

-- A value read is still the balance.
abbrev Fresh : ℕ → Pc → Type 0
Fresh balance begin = Unit
Fresh balance locking = Unit
Fresh balance reading = Unit
Fresh balance (writing n) = n ≡ balance
Fresh balance unlocking = Unit
Fresh balance joining = Unit
Fresh balance ended = Unit

-- Where the worker can be.
abbrev Together : Pc → Pc → Type 0
Together begin w = w ≡ begin
Together locking w = (w ≢ begin) × (w ≢ joining)
Together reading w = (w ≢ begin) × (w ≢ joining)
Together (writing n) w = (w ≢ begin) × (w ≢ joining)
Together unlocking w = (w ≢ begin) × (w ≢ joining)
Together joining w = (w ≢ begin) × (w ≢ joining)
Together ended w = w ≡ ended

record Inv (s : System) : Type 0 where
  total : s.balance ≡ added s.main + added s.worker
  lock : s.lock ≡ owner (inside s.main) (inside s.worker)
  apart : inside s.main ≡ true → inside s.worker ≡ false
  main_fresh : Fresh s.balance s.main
  worker_fresh : Fresh s.balance s.worker
  together : Together s.main s.worker

Step-Inv : (s t : System) → Step s t → Inv s → Inv t
Step-Inv s _ (create e) inv = ground (arith, e, inv.total, inv.lock, inv.together)
Step-Inv s _ (main_lock e f) inv = ground (arith, e, f, inv.total, inv.lock, inv.together)
Step-Inv s _ (main_read e) inv = ground (arith, e, inv.total, inv.lock, inv.together)
Step-Inv s _ (main_write n e) inv = ground (arith, e, inv.total, inv.lock, inv.together)
Step-Inv s _ (main_unlock e) inv = ground (arith, e, inv.total, inv.lock, inv.together)
Step-Inv s _ (main_join e f) inv = ground (arith, e, f, inv.total, inv.lock, inv.together)
Step-Inv s _ (worker_lock e f) inv = ground (arith, e, f, inv.total, inv.lock, inv.together)
Step-Inv s _ (worker_read e) inv = ground (arith, e, inv.total, inv.lock, inv.together)
Step-Inv s _ (worker_write n e) inv = ground (arith, e, inv.total, inv.lock, inv.together)
Step-Inv s _ (worker_unlock e) inv = ground (arith, e, inv.total, inv.lock, inv.together)

main_left : Pc → ℕ
main_left begin = 6
main_left locking = 5
main_left reading = 4
main_left (writing n) = 3
main_left unlocking = 2
main_left joining = 1
main_left ended = 0

worker_left : Pc → ℕ
worker_left begin = 4
worker_left locking = 4
worker_left reading = 3
worker_left (writing n) = 2
worker_left unlocking = 1
worker_left joining = 0
worker_left ended = 0

abbrev left : System → ℕ
left s = main_left s.main + worker_left s.worker

Step-left : (s t : System) → Step s t → Inv s → left t < left s
unfolding main_left worker_left
Step-left s _ (create e) inv = ground (arith, e, inv.together)
Step-left s _ (main_lock e f) inv = rw e (omega arith)
Step-left s _ (main_read e) inv = rw e (omega arith)
Step-left s _ (main_write n e) inv = rw e (omega arith)
Step-left s _ (main_unlock e) inv = rw e (omega arith)
Step-left s _ (main_join e f) inv = rw e (omega arith)
Step-left s _ (worker_lock e f) inv = rw e (omega arith)
Step-left s _ (worker_read e) inv = rw e (omega arith)
Step-left s _ (worker_write n e) inv = rw e (omega arith)
Step-left s _ (worker_unlock e) inv = rw e (omega arith)

start-Inv : Inv start
start-Inv = ground arith

abbrev pub Ended : System → Type 0
Ended s = (s.main ≡ ended) × (s.worker ≡ ended) × (s.balance ≡ 2)

-- The worker goes on, or `main` has the mutex, or it has ended.
worker_goes :
    (s : System) (p : Pc)
    → s.worker ≡ p
    → Inv s
    → p ≢ begin
    → p ≢ joining
    → inside s.main ≡ false
    → (p ≡ ended) ⊎ ((t : System) × Step s t)
worker_goes s begin e inv nb nj out = absurd (nb refl)
worker_goes s locking e inv nb nj out = inr (_, worker_lock e (ground (arith, e, inv.lock, out)))
worker_goes s reading e inv nb nj out = inr (_, worker_read e)
worker_goes s (writing n) e inv nb nj out = inr (_, worker_write n e)
worker_goes s unlocking e inv nb nj out = inr (_, worker_unlock e)
worker_goes s joining e inv nb nj out = absurd (nj refl)
worker_goes s ended e inv nb nj out = inl refl

goes : (s : System) (p : Pc) → s.main ≡ p → Inv s → Ended s ⊎ ((t : System) × Step s t)
goes s begin e inv = inr (_, create e)
goes s locking e inv =
    let (nb, nj) = rw e at inv.together in
    elim (worker_goes s s.worker refl inv nb nj (rw e refl)) [
      | inl w ↦ inr (_, main_lock e (ground (arith, e, w, inv.lock)))
      | inr st ↦ inr st
    ]
goes s reading e inv = inr (_, main_read e)
goes s (writing n) e inv = inr (_, main_write n e)
goes s unlocking e inv = inr (_, main_unlock e)
goes s joining e inv =
    let (nb, nj) = rw e at inv.together in
    elim (worker_goes s s.worker refl inv nb nj (rw e refl)) [
      | inl w ↦ inr (_, main_join e w)
      | inr st ↦ inr st
    ]
goes s ended e inv =
    let w : s.worker ≡ ended = rw e at inv.together in inl (e, w, ground (arith, e, w, inv.total))

-- In every state that is reached some thread can go on, or both have ended and `balance` is 2; and
-- that comes after 10 steps at most.
pub balance_total :
    (s : System) (r : Reach Step start s)
    → (Ended s ⊎ ((t : System) × Step s t)) × (steps Step r ≤ 10)
unfolding main_left worker_left
balance_total s r = (
  goes s s.main refl (Reach-keeps Step Inv Step-Inv start-Inv r),
  omega (arith, steps_bounded Step Inv left Step-Inv Step-left start-Inv r),
)
