-- ===== src/VectorAdd/Meeting.antt =====
-- vector-deadlock.c with `-d` and without `-p`: two threads that take the two mutexes in opposite
-- order.
use sysprg.Prelude.{
  ℕ, zero, suc, ◌%◌, ◌≤◌, ◌<◌, ◌≡◌, ◌≢◌, refl, sym, ◌∙◌, ◌⊎◌, inl, inr, true, false, none, some,
  List, [], ◌∷◌, ◌==◌, update, update_ne, lt→ltb, ltb_ge, arith, ℕ_discrete, Bool-cases, dec_lt,
}
use mathlib.Core.Path.{subst}
use sysprg.VectorAdd.{
  Action, lock, System, Step, do_lock, do_unlock, do_add, Steps, here, later, Config, init, worker,
  thread_arg, vector_add_deadlock,
}

-- A thread still has something to do, and no step is possible.
abbrev pub Stuck : System → Type 0
Stuck s = ((id : ℕ) × (s.rest id ≢ [])) × ((t : System) → ¬ Step s t)

-- Every thread has finished or waits for a mutex that has an owner.
abbrev Waits : System → ℕ → Type 0
Waits s j =
    (s.rest j ≡ []) ⊎ ((l : ℕ) × (k : List Action) × (s.rest j ≡ lock l ∷ k) × (s.owner l ≢ none))

Waits-stops : (s t : System) → ((j : ℕ) → Waits s j) → ¬ Step s t
Waits-stops s _ all (do_lock id l k e free) = elim (all id) [
  | inl f ↦ cc
  | inr (l', k', f, owned) ↦ ground (arith, owned)
]
Waits-stops s _ all (do_unlock id l k e) = elim (all id) [
  | inl f ↦ cc
  | inr (l', k', f, owned) ↦ cc
]
Waits-stops s _ all (do_add id dst src k e) = elim (all id) [
  | inl f ↦ cc
  | inr (l', k', f, owned) ↦ cc
]

-- The settings `-d -n n -l l` with two threads and one round at least.
abbrev pub crossing : ℕ → ℕ → Config
crossing l n = record {
  loops = suc l;
  num_threads = suc (suc n);
  cause_deadlock = true;
  enable_parallelism = false;
}

-- What a thread does first, unless it is not created.
abbrev pub Starts : List Action → Type 0
Starts r = (r ≡ []) ⊎ ((l : ℕ) × (k : List Action) × (r ≡ lock l ∷ k) × ((l ≡ 0) ⊎ (l ≡ 1)))

row_of :
    (l n i : ℕ)
    → i < suc (suc n)
    → (init vector_add_deadlock (crossing l n)).rest i
      ≡ worker vector_add_deadlock (thread_arg (crossing l n) i) (suc l)
unfolding init
row_of l n i lt = rw (lt→ltb i (suc (suc n)) lt) refl

past_row : (l n i : ℕ) → suc (suc n) ≤ i → (init vector_add_deadlock (crossing l n)).rest i ≡ []
unfolding init
past_row l n i ge = rw (ltb_ge i (suc (suc n)) ge) refl

call-Starts :
    (l n i : ℕ) → Starts (worker vector_add_deadlock (thread_arg (crossing l n) i) (suc l))
unfolding vector_add_deadlock worker thread_arg
call-Starts l n i = elim (Bool-cases (i % 2 == 1)) [
  | inl e ↦ rw e (inr (1, _, refl, inr refl))
  | inr e ↦ rw e (inr (0, _, refl, inl refl))
]

row-Starts : (l n i : ℕ) → Starts ((init vector_add_deadlock (crossing l n)).rest i)
row-Starts l n i = elim (dec_lt i (suc (suc n))) [
  | yes lt ↦ subst Starts (sym (row_of l n i lt)) (call-Starts l n i)
  | no ge ↦ inl (past_row l n i (omega arith))
]

-- Two threads have a mutex each and wait for that of the other, and the others begin.
all_wait :
    (s : System) (k0 k1 : List Action)
    → s.rest 0 ≡ lock 1 ∷ k0
    → s.rest 1 ≡ lock 0 ∷ k1
    → ((j : ℕ) → Starts (s.rest (suc (suc j))))
    → s.owner 0 ≡ some 0
    → s.owner 1 ≡ some 1
    → (j : ℕ) → Waits s j
all_wait s k0 k1 e0 e1 others o0 o1 zero = inr (1, k0, e0, λ e. cc)
all_wait s k0 k1 e0 e1 others o0 o1 (suc zero) = inr (0, k1, e1, λ e. cc)
all_wait s k0 k1 e0 e1 others o0 o1 (suc (suc j)) = elim (others j) [
  | inl e ↦ inl e
  | inr (x, r, e, two) ↦ inr (x, r, e, λ free. ground (arith, two))
]

-- Thread 0 takes the mutex 0, then thread 1 the mutex 1: nobody goes on.
pub meet :
    (s : System) (k0 k1 : List Action)
    → s.rest 0 ≡ lock 0 ∷ lock 1 ∷ k0
    → s.rest 1 ≡ lock 1 ∷ lock 0 ∷ k1
    → ((j : ℕ) → Starts (s.rest j))
    → ((l : ℕ) → s.owner l ≡ none)
    → (t : System) × Steps s t × Stuck t
unfolding ℕ_discrete
meet s k0 k1 e0 e1 starts free =
    let rest = update s.rest 0 (lock 1 ∷ k0) in
    (
      _,
      later (later here (do_lock 0 0 (lock 1 ∷ k0) e0 (free 0)))
          (do_lock 1 1 (lock 0 ∷ k1) e1 (free 1)),
      (
        (0, λ e. cc),
        λ t. Waits-stops _ t (
            all_wait
              (record {
                owner = update (update s.owner 0 (some 0)) 1 (some 1);
                values = s.values;
                rest = update rest 1 (lock 0 ∷ k1);
              })
              k0 k1 refl refl
              (λ j.
                subst Starts
                  (sym (
                    update_ne rest 1 (suc (suc j)) (lock 0 ∷ k1) (λ e. omega (arith, e))
                    ∙ update_ne s.rest 0 (suc (suc j)) (lock 1 ∷ k0) (λ e. omega (arith, e))))
                  (starts (suc (suc j))))
              refl refl),
      ),
    )

pub crossing-Stuck :
    (l n : ℕ) → (s : System) × Steps (init vector_add_deadlock (crossing l n)) s × Stuck s
unfolding init vector_add_deadlock worker thread_arg
crossing-Stuck l n =
    meet (init vector_add_deadlock (crossing l n)) _ _ (row_of l n 0 (omega arith))
      (row_of l n 1 (omega arith)) (row-Starts l n) (λ x. refl)
