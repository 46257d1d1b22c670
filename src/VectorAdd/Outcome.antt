-- ===== src/VectorAdd/Outcome.antt =====
-- threads-bugs/main-common.c: which options let vector-deadlock.c deadlock, and the vectors that the
-- threads of a run get.
use sysprg.Prelude.{
  ℕ, ◌≤◌, ◌<◌, ◌≡◌, ◌≢◌, ◌↔◌, refl, sym, ap, ◌∙◌, Bool, true, false, ◌||◌, inl, inr, Option, none,
  some, List, [], ◌∷◌, ◌==◌, ==-ne, ℕ_discrete, Bool-cases, ltb→lt, arith, if◌then◌else◌,
}
use mathlib.Core.Path.{subst}
use sysprg.Prelude.Int.{ℤ, pos, negsuc, pos_part}
use sysprg.Options.Reading.{last_of}
use sysprg.VectorAdd.{max_threads, System, Step, Steps, init, vector_add_avoid_hold_and_wait}
use sysprg.VectorAdd.Waiting.{avoid_hold_progress}
use sysprg.VectorAdd.Deadlock.{Deadlocks, Crosses, Deadlocks-iff}
use sysprg.VectorAdd.Choices.{
  RunSettings, run_defaults, few_threads, runs, assert_fails, then_switch, config, switch_option,
  getopt_loop, begin_run, main_run,
}

begun :
    (s : RunSettings) (o : Option RunSettings)
    → begin_run o ≡ runs s
    → (o ≡ some s) × (few_threads s.num_threads ≡ true)
begun s none e = cc
begun s (some t) e = elim (Bool-cases (few_threads t.num_threads)) [
  | inl y ↦
      let b : begin_run (some t) ≡ runs t = ap (λ c. if c then runs t else assert_fails) y in
      let same : t ≡ s = cc in (ap some same, subst (λ u. few_threads u.num_threads ≡ true) same y)
  | inr n ↦
      let b : begin_run (some t) ≡ assert_fails = ap (λ c. if c then runs t else assert_fails) n in
      absurd (cc)
]

few_threads_lem : (n : ℤ) → few_threads n ≡ true → pos_part n < max_threads
few_threads_lem (pos n) e = ltb→lt n max_threads e
few_threads_lem (negsuc n) e = omega arith

module _ (atoi : List ℕ → ℤ) where
  -- One option.
  chosen : RunSettings → ℕ → List ℕ → RunSettings
  chosen s c a = record {
    loops = if c == b'l' then atoi a else s.loops;
    num_threads = if c == b'n' then atoi a else s.num_threads;
    verbose = if c == b'v' then true else s.verbose;
    do_timing = if c == b't' then true else s.do_timing;
    cause_deadlock = if c == b'd' then true else s.cause_deadlock;
    enable_parallelism = if c == b'p' then true else s.enable_parallelism;
  }

  abbrev is_letter : ℕ → Bool
  is_letter c = c == b'l' || c == b'n' || c == b'v' || c == b't' || c == b'd' || c == b'p'

  switch_option_lem :
      (s : RunSettings) (c : ℕ) (a : List ℕ)
      → switch_option atoi s c a ≡ (if is_letter c then some (chosen s c a) else none)
  unfolding switch_option chosen
  switch_option_lem s c a = elim (ℕ_discrete c b'l') [
    | yes e ↦ rw e refl
    | no n1 ↦ elim (ℕ_discrete c b'n') [
      | yes e ↦ rw e refl
      | no n2 ↦ elim (ℕ_discrete c b'v') [
        | yes e ↦ rw e refl
        | no n3 ↦ elim (ℕ_discrete c b't') [
          | yes e ↦ rw e refl
          | no n4 ↦ elim (ℕ_discrete c b'd') [
            | yes e ↦ rw e refl
            | no n5 ↦ elim (ℕ_discrete c b'p') [
              | yes e ↦ rw e refl
              | no n6 ↦
                  rw
                    (
                      ==-ne _ _ n1,
                      ==-ne _ _ n2,
                      ==-ne _ _ n3,
                      ==-ne _ _ n4,
                      ==-ne _ _ n5,
                      ==-ne _ _ n6,
                    )
                    refl
            ]
          ]
        ]
      ]
    ]
  ]

  settings_of : RunSettings → List (ℕ × List ℕ) → RunSettings
  unfolding last_of
  settings_of s gs = record {
    loops = last_of atoi b'l' s.loops gs;
    num_threads = last_of atoi b'n' s.num_threads gs;
    verbose = last_of (λ a. true) b'v' s.verbose gs;
    do_timing = last_of (λ a. true) b't' s.do_timing gs;
    cause_deadlock = last_of (λ a. true) b'd' s.cause_deadlock gs;
    enable_parallelism = last_of (λ a. true) b'p' s.enable_parallelism gs;
  }

  getopt_loop_lem :
      (s t : RunSettings) (gs : List (ℕ × List ℕ))
      → getopt_loop atoi s gs ≡ some t
      → t ≡ settings_of s gs
  unfolding getopt_loop settings_of last_of chosen
  getopt_loop_lem s t [] e = cc
  getopt_loop_lem s t ((c, a) ∷ gs) e = elim (Bool-cases (is_letter c)) [
    | inl y ↦
        let f : switch_option atoi s c a ≡ some (chosen s c a) =
          switch_option_lem s c a ∙ rw y refl in
        getopt_loop_lem (chosen s c a) t gs
          (sym (ap (λ o. then_switch o (λ s'. getopt_loop atoi s' gs)) f) ∙ e)
    | inr n ↦
        let f : switch_option atoi s c a ≡ none = switch_option_lem s c a ∙ rw n refl in
        absurd (clash (sym (ap (λ o. then_switch o (λ s'. getopt_loop atoi s' gs)) f) ∙ e))
  ]
    where
      clash : Option.none ≡ some t → ⊥
      clash e = cc

  -- What a run has that `main` begins.
  main_run_lem :
      (gs : List (ℕ × List ℕ)) (s : RunSettings)
      → main_run atoi gs ≡ runs s
      → (s ≡ settings_of run_defaults gs) × (few_threads s.num_threads ≡ true)
  unfolding main_run
  main_run_lem gs s e =
      let (f, few) = begun s (getopt_loop atoi run_defaults gs) e in
      (getopt_loop_lem run_defaults s gs f, few)

  -- If `main` of main-common.c begins a run of vector-deadlock.c, then the run can deadlock
  -- exactly if the option `-d` was given and `-p` was not, and the last `-l` and the last `-n`, or
  -- their defaults 1 and 2, are at least 1 and 2.
  pub main-Deadlocks :
      (gs : List (ℕ × List ℕ)) (s : RunSettings)
      → main_run atoi gs ≡ runs s
      → Deadlocks (config s) ↔ (
          (last_of (λ a. true) b'd' false gs ≡ true)
          × (last_of (λ a. true) b'p' false gs ≡ false)
          × (1 ≤ pos_part (last_of atoi b'l' (pos 1) gs))
          × (2 ≤ pos_part (last_of atoi b'n' (pos 2) gs)))
  unfolding settings_of
  main-Deadlocks gs s e =
      let (f, few) = main_run_lem gs s e in
      subst (λ t. Deadlocks (config s) ↔ Crosses (config t)) f (Deadlocks-iff (config s))

  -- A run of vector-avoid-hold-and-wait.c that `main` of main-common.c begins, with whatever
  -- options, does not deadlock: however its threads interleave, as long as one of them still has
  -- something to do some thread can take a step.
  pub main_avoid_hold :
      (gs : List (ℕ × List ℕ)) (s : RunSettings) (t : System) (id : ℕ)
      → main_run atoi gs ≡ runs s
      → Steps (init vector_add_avoid_hold_and_wait (config s)) t
      → t.rest id ≢ []
      → (u : System) × Step t u
  main_avoid_hold gs s t id e r ne =
      avoid_hold_progress (config s) id (few_threads_lem s.num_threads (main_run_lem gs s e).1) r ne
