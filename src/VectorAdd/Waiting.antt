-- ===== src/VectorAdd/Waiting.antt =====
-- vector-avoid-hold-and-wait.c cannot deadlock: who waits for a mutex of a vector has `global`, and
-- who has a mutex of a vector without `global` waits for nothing.
use sysprg.Prelude.{
  ℕ, zero, suc, ◌*◌, ◌<◌, ◌≡◌, ◌≢◌, refl, sym, inl, inr, true, false, List, [], ◌++◌, update, arith,
  Bool-cases,
}
use mathlib.Core.Path.{subst, fun_ext}
use sysprg.VectorAdd.{
  Action, System, Step, Steps, Config, worker, thread_arg, init, vector_add_avoid_hold_and_wait,
  ThreadArg, global, max_threads,
}
use sysprg.VectorAdd.Owners.{no_mutex, Steps-Inv, init-Inv}
use sysprg.VectorAdd.Guarded.{Careful, Careful-Follows, Careful-done, some-Step}

-- A call for two vectors, and what follows it with no mutex held.
Careful-call :
    (dst src : ℕ) (k : List Action)
    → dst < global
    → src < global
    → dst ≢ src
    → Careful global no_mutex k
    → Careful global no_mutex (vector_add_avoid_hold_and_wait dst src ++ k)
unfolding vector_add_avoid_hold_and_wait Careful
Careful-call dst src k hd hs ne rest = (
  refl,
  inl (λ x. refl),
  (
    ground arith,
    inr (ground arith),
    (
      ground arith,
      inr (ground arith),
      (
        ground arith,
        (
          ground arith,
          (ground arith, subst (λ f. Careful global f k) (sym (fun_ext released)) rest),
        ),
      ),
    ),
  ),
)
  where
    released :
        (l : ℕ)
        → update
            (update
              (update
                (update (update (update no_mutex global true) dst true) src true)
                global
                false)
              dst
              false)
            src
            false
            l
          ≡ false
    released l = ground arith

Careful-worker :
    (args : ThreadArg) (n : ℕ)
    → args.vector_0 < global
    → args.vector_1 < global
    → args.vector_0 ≢ args.vector_1
    → Careful global no_mutex (worker vector_add_avoid_hold_and_wait args n)
unfolding worker
Careful-worker args zero h0 h1 ne = Careful-done global
Careful-worker args (suc n) h0 h1 ne =
    let rest = Careful-worker args n h0 h1 ne in
    elim (Bool-cases args.vector_add_order) [
      | inl e ↦ rw e (Careful-call args.vector_1 args.vector_0 _ h1 h0 (λ f. ne (sym f)) rest)
      | inr e ↦ rw e (Careful-call args.vector_0 args.vector_1 _ h0 h1 ne rest)
    ]

-- The threads that `main` allows have two vectors of `v` each.
pub thread_arg-in_v :
    (cfg : Config) (i : ℕ)
    → cfg.num_threads < max_threads
    → i < cfg.num_threads
    → ((thread_arg cfg i).vector_0 < 2 * max_threads)
      × ((thread_arg cfg i).vector_1 < 2 * max_threads)
      × ((thread_arg cfg i).vector_0 ≢ (thread_arg cfg i).vector_1)
unfolding thread_arg
thread_arg-in_v cfg i few h = ground arith

-- However the threads of vector-avoid-hold-and-wait.c interleave, if there are as few as `main`
-- asserts, then as long as one of them still has something to do some thread can take a step, for
-- both settings of the options `-d` and `-p`: it does not deadlock.
pub avoid_hold_progress :
    (cfg : Config) {s : System} (id : ℕ)
    → cfg.num_threads < max_threads
    → Steps (init vector_add_avoid_hold_and_wait cfg) s
    → s.rest id ≢ []
    → (t : System) × Step s t
avoid_hold_progress cfg {s} id few r ne =
    let start =
      init-Inv (Careful global) (Careful-Follows global) vector_add_avoid_hold_and_wait cfg
        (Careful-done global)
        (λ i lt.
          let (h0, h1, h) = thread_arg-in_v cfg i few lt in
          Careful-worker (thread_arg cfg i) cfg.loops h0 h1 h) in
    some-Step global (Steps-Inv (Careful global) (Careful-Follows global) r start) id (s.rest id)
      refl ne
