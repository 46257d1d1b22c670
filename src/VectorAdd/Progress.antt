-- ===== src/VectorAdd/Progress.antt =====
-- vector-global-order.c cannot deadlock: who takes mutexes in rising order never waits in a ring.
use sysprg.Prelude.{
  ℕ, zero, suc, ◌+◌, ◌*◌, ◌≤◌, ◌<◌, ◌≡◌, ◌≢◌, refl, sym, ap, if◌then◌else◌, ◌⊎◌, inl, inr, Bool,
  true, false, List, [], ◌∷◌, ◌++◌, update, arith, dec_lt, Option-cases, Bool-cases, lt→ltb, ltb_ge,
  ==-eq, ==-ne,
}
use mathlib.Core.Path.{subst, fun_ext}
use sysprg.VectorAdd.{
  Action, lock, unlock, add, System, Step, do_lock, do_unlock, do_add, Steps, Config, worker,
  thread_arg, init, vector_add_global_order, ThreadArg,
}
use sysprg.VectorAdd.Owners.{Follows, Inv, no_mutex, Steps-Inv, init-Inv}

module _ (rank : ℕ → ℕ) (bound : ℕ) where
  -- The row of a thread that has the mutexes `held`: it takes only those of a greater rank, below
  -- `bound`, releases only what it has, and ends with none.
  pub Rising : (ℕ → Bool) → List Action → Type 0
  Rising held [] = (l : ℕ) → held l ≡ false
  Rising held (lock l ∷ k) =
      (rank l < bound) × ((x : ℕ) → held x ≡ true → rank x < rank l) × Rising (update held l true) k
  Rising held (unlock l ∷ k) = (held l ≡ true) × Rising (update held l false) k
  Rising held (add dst src ∷ k) = Rising held k

  pub Rising-Follows : Follows Rising
  unfolding Rising
  Rising-Follows = record {
    locks = λ held l k h. h.2;
    unlocks = λ held l k h. h;
    adds = λ held dst src k h. h;
  }

  pub Rising-done : Rising no_mutex []
  unfolding Rising
  Rising-done = λ l. refl

  module _ {s : System} (inv : Inv Rising s) where
    row : {j : ℕ} {r : List Action} → s.rest j ≡ r → Rising (inv.held j) r
    row {j} e = subst (Rising (inv.held j)) e (inv.rows j)

    -- A thread that has a mutex can step, or waits for a greater one.
    holder_steps :
        (j l : ℕ) (r : List Action)
        → s.rest j ≡ r
        → inv.held j l ≡ true
        → ((x : ℕ) (k : List Action)
            → s.rest j ≡ lock x ∷ k
            → rank l < rank x
            → (t : System) × Step s t)
        → (t : System) × Step s t
    unfolding Rising
    holder_steps j l [] e h wait = let none_held : inv.held j l ≡ false = row e l in absurd (cc)
    holder_steps j l (lock x ∷ k) e h wait = wait x k e ((row e).1 l h)
    holder_steps j l (unlock x ∷ k) e h wait = (_, do_unlock j x k e)
    holder_steps j l (add dst src ∷ k) e h wait = (_, do_add j dst src k e)

    -- The rank that a thread waits for rises along the chain of waiting threads, so the chain ends.
    waiter_steps :
        (n id l : ℕ) (k : List Action)
        → s.rest id ≡ lock l ∷ k
        → bound ≤ rank l + n
        → (t : System) × Step s t
    unfolding Rising
    waiter_steps zero id l k e h = absurd (omega (arith, (row e).0))
    waiter_steps (suc n) id l k e h = elim (Option-cases (s.owner l)) [
      | inl nobody ↦ (_, do_lock id l k e nobody)
      | inr (j, has) ↦
          holder_steps j l (s.rest j) refl (inv.owning j l has)
            (λ x k' e' lt. waiter_steps n j x k' e' (omega arith))
    ]

    pub some-Step : (id : ℕ) (r : List Action) → s.rest id ≡ r → r ≢ [] → (t : System) × Step s t
    some-Step id [] e ne = absurd (ne refl)
    some-Step id (lock l ∷ k) e ne = waiter_steps bound id l k e (omega arith)
    some-Step id (unlock l ∷ k) e ne = (_, do_unlock id l k e)
    some-Step id (add dst src ∷ k) e ne = (_, do_add id dst src k e)

  -- Two mutexes taken in rising order and released in either order.
  pub Rising-pair :
      (lo hi x y dst src : ℕ) (k : List Action)
      → rank lo < rank hi
      → rank hi < bound
      → ((x ≡ lo) × (y ≡ hi)) ⊎ ((x ≡ hi) × (y ≡ lo))
      → Rising no_mutex k
      → Rising no_mutex (lock lo ∷ lock hi ∷ add dst src ∷ unlock x ∷ unlock y ∷ k)
  unfolding Rising
  Rising-pair lo hi x y dst src k h hb xy rest =
      let ne : lo ≢ hi = λ e. omega (arith, ap rank e) in
      (
        omega arith,
        λ l t. ground arith,
        (
          hb,
          λ l t. ground arith,
          (
            ground arith,
            (ground arith, subst (λ f. Rising f k) (sym (fun_ext (released ne))) rest),
          ),
        ),
      )
    where
      released :
          lo ≢ hi
          → (l : ℕ)
          → update (update (update (update no_mutex lo true) hi true) x false) y false l ≡ false
      released ne l = ground arith

  Rising-one :
      (a dst src : ℕ) (k : List Action)
      → rank a < bound
      → Rising no_mutex k
      → Rising no_mutex (lock a ∷ add dst src ∷ unlock a ∷ k)
  unfolding Rising
  Rising-one a dst src k ha rest = (
    ha,
    λ l t. ground arith,
    (ground arith, subst (λ f. Rising f k) (sym (fun_ext released)) rest),
  )
    where
      released : (l : ℕ) → update (update no_mutex a true) a false l ≡ false
      released l = ground arith

  -- The calls of a thread, when each call of its kind has a row that rises.
  pub Rising-worker :
      (vector_add : ℕ → ℕ → List Action) (args : ThreadArg) (n : ℕ)
      → ((k : List Action)
          → Rising no_mutex k
          → Rising no_mutex (
              (if args.vector_add_order
                then vector_add args.vector_1 args.vector_0
                else vector_add args.vector_0 args.vector_1)
              ++ k))
      → Rising no_mutex (worker vector_add args n)
  unfolding worker Rising
  Rising-worker vector_add args zero each = λ l. refl
  Rising-worker vector_add args (suc n) each = each _ (Rising-worker vector_add args n each)

-- A call of `vector_add` in the order of addresses, and what follows it with no mutex held.
Rising-global_order :
    (bound dst src : ℕ) (k : List Action)
    → dst < bound
    → src < bound
    → Rising (λ l. l) bound no_mutex k
    → Rising (λ l. l) bound no_mutex (vector_add_global_order dst src ++ k)
unfolding vector_add_global_order
Rising-global_order bound dst src k hd hs rest = elim (dec_lt dst src) [
  | yes lt ↦
      rw (lt→ltb dst src lt, ==-ne dst src (omega arith))
        (Rising-pair (λ l. l) bound dst src src dst dst src k lt hs (inr (refl, refl)) rest)
  | no ge ↦ elim (dec_lt src dst) [
    | yes lt ↦
        rw (ltb_ge dst src (omega arith), lt→ltb src dst lt, ==-ne dst src (omega arith))
          (Rising-pair (λ l. l) bound src dst src dst dst src k lt hd (inl (refl, refl)) rest)
    | no ge' ↦
        let e : dst ≡ src = omega arith in
        rw (ltb_ge dst src (omega arith), ltb_ge src dst (omega arith), ==-eq dst src e)
          (Rising-one (λ l. l) bound src dst src k hs rest)
  ]
]

-- The vectors that the threads are given lie below `2 * num_threads + 2`.
pub thread_arg_bounds :
    (cfg : Config) (i : ℕ)
    → i < cfg.num_threads
    → ((thread_arg cfg i).vector_0 < 2 * cfg.num_threads + 2)
      × ((thread_arg cfg i).vector_1 < 2 * cfg.num_threads + 2)
unfolding thread_arg
thread_arg_bounds cfg i h = ground arith

call-Rising :
    (bound : ℕ) (args : ThreadArg) (k : List Action)
    → args.vector_0 < bound
    → args.vector_1 < bound
    → Rising (λ l. l) bound no_mutex k
    → Rising
        (λ l. l)
        bound
        no_mutex
        ((if args.vector_add_order
            then vector_add_global_order args.vector_1 args.vector_0
            else vector_add_global_order args.vector_0 args.vector_1)
          ++ k)
call-Rising bound args k h0 h1 rest = elim (Bool-cases args.vector_add_order) [
  | inl e ↦ rw e (Rising-global_order bound args.vector_1 args.vector_0 k h1 h0 rest)
  | inr e ↦ rw e (Rising-global_order bound args.vector_0 args.vector_1 k h0 h1 rest)
]

-- However the threads of vector-global-order.c interleave, as long as one of them still has
-- something to do some thread can take a step, for every number of threads, of rounds, and both
-- settings of the options `-d` and `-p`: it does not deadlock.
global_order_progress :
    (cfg : Config) {s : System} (id : ℕ)
    → Steps (init vector_add_global_order cfg) s
    → s.rest id ≢ []
    → (t : System) × Step s t
global_order_progress cfg {s} id r ne =
    let bound = 2 * cfg.num_threads + 2 in
    let follows = Rising-Follows (λ l. l) bound in
    let start =
      init-Inv (Rising (λ l. l) bound) follows vector_add_global_order cfg
        (Rising-done (λ l. l) bound)
        (λ i lt.
          let (h0, h1) = thread_arg_bounds cfg i lt in
          Rising-worker (λ l. l) bound vector_add_global_order (thread_arg cfg i) cfg.loops
            (λ k rest. call-Rising bound (thread_arg cfg i) k h0 h1 rest)) in
    some-Step (λ l. l) bound (Steps-Inv (Rising (λ l. l) bound) follows r start) id (s.rest id) refl
      ne
