-- ===== src/VectorAdd/Owners.antt =====
-- threads-bugs: which thread has which mutexes, where each thread follows a rule on what it takes.
use sysprg.Prelude.{
  refl, [], ◌<◌, inl, inr, ltb, ltb→lt, Bool-cases, ℕ, ◌≡◌, Bool, true, false, none, some, List,
  ◌∷◌, update, arith, ℕ_discrete,
}
use mathlib.Core.Path.{subst}
use mathlib.Core.Logic.{if_pos, if_neg}
use sysprg.VectorAdd.{
  Action, lock, unlock, add, System, Step, do_lock, do_unlock, do_add, Steps, here, later, Config,
  worker, thread_arg, init,
}

-- A rule says which row a thread may have before it when it has the mutexes `held`. It is about the
-- whole row, and a thread releases only what it has.
pub record Follows (Row : (ℕ → Bool) → List Action → Type 0) : Type 0 where
  pub locks :
      (held : ℕ → Bool) (l : ℕ) (k : List Action)
      → Row held (lock l ∷ k)
      → Row (update held l true) k
  pub unlocks :
      (held : ℕ → Bool) (l : ℕ) (k : List Action)
      → Row held (unlock l ∷ k)
      → (held l ≡ true) × Row (update held l false) k
  pub adds :
      (held : ℕ → Bool) (dst src : ℕ) (k : List Action) → Row held (add dst src ∷ k) → Row held k

pub record Inv (Row : (ℕ → Bool) → List Action → Type 0) (s : System) : Type 0 where
  pub held : ℕ → ℕ → Bool
  pub owned : (id l : ℕ) → held id l ≡ true → s.owner l ≡ some id
  pub owning : (id l : ℕ) → s.owner l ≡ some id → held id l ≡ true
  pub rows : (id : ℕ) → Row (held id) (s.rest id)

-- Who has no mutex.
abbrev pub no_mutex : ℕ → Bool
no_mutex l = false

module _ (Row : (ℕ → Bool) → List Action → Type 0) (follows : Follows Row) where
  -- Only the row of thread `id` and the mutexes in its hands have changed.
  Row-update :
      (held : ℕ → ℕ → Bool) (rest : ℕ → List Action) (id : ℕ) (h : ℕ → Bool) (k : List Action)
      → ((j : ℕ) → Row (held j) (rest j))
      → Row h k
      → (j : ℕ) → Row (update held id h j) (update rest id k j)
  Row-update held rest id h k all new j = elim (ℕ_discrete id j) [
    | yes e ↦ rw (if_pos (ℕ_discrete id j) e) (rw (if_pos (ℕ_discrete id j) e) new)
    | no ne ↦ rw (if_neg (ℕ_discrete id j) ne) (rw (if_neg (ℕ_discrete id j) ne) (all j))
  ]

  Row-same :
      (held : ℕ → ℕ → Bool) (rest : ℕ → List Action) (id : ℕ) (k : List Action)
      → ((j : ℕ) → Row (held j) (rest j))
      → Row (held id) k
      → (j : ℕ) → Row (held j) (update rest id k j)
  Row-same held rest id k all new j = elim (ℕ_discrete id j) [
    | yes e ↦ rw (if_pos (ℕ_discrete id j) e) (subst (λ i. Row (held i) k) e new)
    | no ne ↦ rw (if_neg (ℕ_discrete id j) ne) (all j)
  ]

  Step-Inv : {s t : System} → Step s t → Inv Row s → Inv Row t
  Step-Inv {s} (do_lock id l k e none_has) inv = record {
    held = update inv.held id (update (inv.held id) l true);
    owned = λ j x h. ground (arith, inv.owned j x, inv.owned id x);
    owning = λ j x h. ground (arith, inv.owning j x, inv.owning id x);
    rows =
        Row-update inv.held s.rest id _ k inv.rows
          (follows.locks (inv.held id) l k (subst (Row (inv.held id)) e (inv.rows id)));
  }
  Step-Inv {s} (do_unlock id l k e) inv = record {
    held = update inv.held id (update (inv.held id) l false);
    owned = λ j x h. ground (arith, inv.owned j x, inv.owned id x, inv.owned id l, mine.0);
    owning = λ j x h. ground (arith, inv.owning j x, inv.owning id x);
    rows = Row-update inv.held s.rest id _ k inv.rows mine.1;
  }
    where
      mine : (inv.held id l ≡ true) × Row (update (inv.held id) l false) k
      mine = follows.unlocks (inv.held id) l k (subst (Row (inv.held id)) e (inv.rows id))
  Step-Inv {s} (do_add id dst src k e) inv = record {
    held = inv.held;
    owned = inv.owned;
    owning = inv.owning;
    rows =
        Row-same inv.held s.rest id k inv.rows
          (follows.adds (inv.held id) dst src k (subst (Row (inv.held id)) e (inv.rows id)));
  }

  pub Steps-Inv : {s t : System} → Steps s t → Inv Row s → Inv Row t
  Steps-Inv here inv = inv
  Steps-Inv (later r st) inv = Step-Inv st (Steps-Inv r inv)

  -- Where nobody has a mutex.
  pub none_held-Inv :
      (s : System)
      → ((l : ℕ) → s.owner l ≡ none)
      → ((id : ℕ) → Row no_mutex (s.rest id))
      → Inv Row s
  none_held-Inv s free rows = record {
    held = λ id l. false;
    owned = λ id l h. cc;
    owning = λ id l h. let f = free l in cc;
    rows = rows;
  }

  pub init-Inv :
      (vector_add : ℕ → ℕ → List Action) (cfg : Config)
      → Row no_mutex []
      → ((i : ℕ)
          → i < cfg.num_threads
          → Row no_mutex (worker vector_add (thread_arg cfg i) cfg.loops))
      → Inv Row (init vector_add cfg)
  unfolding init
  init-Inv vector_add cfg done each =
      none_held-Inv (init vector_add cfg) (λ l. refl)
        (λ id. elim (Bool-cases (ltb id cfg.num_threads)) [
          | inl e ↦ rw e (each id (ltb→lt id cfg.num_threads e))
          | inr e ↦ rw e done
        ])
