-- ===== src/VectorAdd/Deadlock.antt =====
-- vector-deadlock.c: with which options its threads can wait for each other for ever.
use sysprg.Prelude.{
  ◌↔◌, ℕ, ◌+◌, ◌-◌, ◌*◌, ◌%◌, ◌≤◌, ◌<◌, ◌≡◌, refl, sym, ap, ◌∙◌, inl, inr, true, false, List, ◌++◌,
  ◌==◌, ◌&&◌, arith, Bool-cases, if◌then◌else◌, dec_lt,
}
use mathlib.Core.Path.{subst}
use sysprg.VectorAdd.{
  Action, System, Steps, Config, ThreadArg, init, worker, thread_arg, vector_add_deadlock,
}
use sysprg.VectorAdd.Owners.{no_mutex, Steps-Inv, init-Inv}
use sysprg.VectorAdd.Progress.{
  Rising, Rising-Follows, Rising-done, Rising-pair, Rising-worker, some-Step,
}
use sysprg.VectorAdd.Meeting.{Stuck, crossing-Stuck}

-- The rows rise in some order of the mutexes: no state is stuck.
rising-free :
    (cfg : Config) (rank : ℕ → ℕ) (bound : ℕ)
    → ((i : ℕ)
        → i < cfg.num_threads
        → Rising rank bound no_mutex (worker vector_add_deadlock (thread_arg cfg i) cfg.loops))
    → (s : System) → Steps (init vector_add_deadlock cfg) s
    → ¬ Stuck s
rising-free cfg rank bound each s r ((id, ne), none_left) =
    let follows = Rising-Follows rank bound in
    let start =
      init-Inv (Rising rank bound) follows vector_add_deadlock cfg (Rising-done rank bound) each in
    let (t, st) =
      some-Step rank bound (Steps-Inv (Rising rank bound) follows r start) id (s.rest id) refl ne in
    none_left t st

-- The mutexes that a call of a thread takes.
abbrev first : ThreadArg → ℕ
first args = if args.vector_add_order then args.vector_1 else args.vector_0

abbrev second : ThreadArg → ℕ
second args = if args.vector_add_order then args.vector_0 else args.vector_1

call-Rising :
    (rank : ℕ → ℕ) (bound : ℕ) (args : ThreadArg) (k : List Action)
    → rank (first args) < rank (second args)
    → rank (second args) < bound
    → Rising rank bound no_mutex k
    → Rising rank bound no_mutex (
        (if args.vector_add_order
          then vector_add_deadlock args.vector_1 args.vector_0
          else vector_add_deadlock args.vector_0 args.vector_1)
        ++ k)
unfolding vector_add_deadlock
call-Rising rank bound args k h hb rest = elim (Bool-cases args.vector_add_order) [
  | inl e ↦ rw e (
      Rising-pair rank bound args.vector_1 args.vector_0 _ _ _ _ k (rw e at h) (rw e at hb)
        (inl (refl, refl)) rest)
  | inr e ↦ rw e (
      Rising-pair rank bound args.vector_0 args.vector_1 _ _ _ _ k (rw e at h) (rw e at hb)
        (inl (refl, refl)) rest)
]

-- Each thread takes its two mutexes in rising order.
pairs-free :
    (cfg : Config) (rank : ℕ → ℕ) (bound : ℕ)
    → ((i : ℕ)
        → i < cfg.num_threads
        → (rank (first (thread_arg cfg i)) < rank (second (thread_arg cfg i)))
          × (rank (second (thread_arg cfg i)) < bound))
    → (s : System) → Steps (init vector_add_deadlock cfg) s
    → ¬ Stuck s
pairs-free cfg rank bound each = rising-free cfg rank bound (λ i lt.
    Rising-worker rank bound vector_add_deadlock (thread_arg cfg i) cfg.loops
      (λ k rest. let (h, hb) = each i lt in call-Rising rank bound (thread_arg cfg i) k h hb rest))

no_rounds-free :
    (cfg : Config)
    → cfg.loops ≡ 0
    → (s : System) → Steps (init vector_add_deadlock cfg) s
    → ¬ Stuck s
unfolding worker
no_rounds-free cfg e = rising-free cfg (λ l. l) 0 (λ i lt. rw e (Rising-done (λ l. l) 0))

same_order-free :
    (cfg : Config)
    → ((i : ℕ) → i < cfg.num_threads → (cfg.cause_deadlock && i % 2 == 1) ≡ false)
    → (s : System) → Steps (init vector_add_deadlock cfg) s
    → ¬ Stuck s
unfolding thread_arg
same_order-free cfg same =
    pairs-free cfg (λ l. l) (2 * cfg.num_threads + 2) (λ i lt. rw (same i lt) (ground arith))

-- The mutexes in the order in which the threads take them with `-d -p`.
abbrev crossed : ℕ → ℕ
crossed l = if l % 4 == 2 then l + 1 else if l % 4 == 3 then l - 1 else l

parallel-free :
    (cfg : Config)
    → cfg.enable_parallelism ≡ true
    → cfg.cause_deadlock ≡ true
    → (s : System) → Steps (init vector_add_deadlock cfg) s
    → ¬ Stuck s
unfolding thread_arg
parallel-free cfg e f =
    pairs-free cfg crossed (2 * cfg.num_threads + 2) (λ i lt. ground (arith, e, f))

abbrev pub Crosses : Config → Type 0
Crosses cfg =
    (cfg.cause_deadlock ≡ true)
    × (cfg.enable_parallelism ≡ false)
    × (1 ≤ cfg.loops)
    × (2 ≤ cfg.num_threads)

abbrev pub Deadlocks : Config → Type 0
Deadlocks cfg = (s : System) × Steps (init vector_add_deadlock cfg) s × Stuck s

config_eq :
    (a b : Config)
    → a.loops ≡ b.loops
    → a.num_threads ≡ b.num_threads
    → a.cause_deadlock ≡ b.cause_deadlock
    → a.enable_parallelism ≡ b.enable_parallelism
    → a ≡ b
config_eq a b e1 e2 e3 e4 =
    ap (λ x. record a { loops = x }) e1
    ∙ ap (λ x. record a { loops = b.loops; num_threads = x }) e2
    ∙ ap (λ x. record b { cause_deadlock = x; enable_parallelism = a.enable_parallelism }) e3
    ∙ ap (λ x. record b { enable_parallelism = x }) e4

Crosses-Deadlocks : (cfg : Config) → Crosses cfg → Deadlocks cfg
Crosses-Deadlocks cfg (d, p, one, two) =
    subst Deadlocks (config_eq _ cfg (omega arith) (omega arith) (sym d) (sym p))
      (crossing-Stuck (cfg.loops - 1) (cfg.num_threads - 2))

Deadlocks-Crosses : (cfg : Config) → Deadlocks cfg → Crosses cfg
Deadlocks-Crosses cfg (s, r, stuck) = elim (Bool-cases cfg.cause_deadlock) [
  | inr off ↦ absurd (same_order-free cfg (λ i lt. rw off refl) s r stuck)
  | inl d ↦ elim (Bool-cases cfg.enable_parallelism) [
    | inl par ↦ absurd (parallel-free cfg par d s r stuck)
    | inr p ↦ elim (dec_lt 0 cfg.loops) [
      | no none_left ↦ absurd (no_rounds-free cfg (omega arith) s r stuck)
      | yes one ↦ elim (dec_lt 1 cfg.num_threads) [
        | yes two ↦ (d, p, omega arith, omega arith)
        | no few ↦ absurd (same_order-free cfg (λ i lt. ground arith) s r stuck)
      ]
    ]
  ]
]

-- vector-deadlock.c can come to a state in which a thread still has something to do and no thread
-- can take a step exactly with `-d`, without `-p`, with one round at least and two threads at least.
pub Deadlocks-iff : (cfg : Config) → Deadlocks cfg ↔ Crosses cfg
Deadlocks-iff cfg = (Deadlocks-Crosses cfg, Crosses-Deadlocks cfg)
