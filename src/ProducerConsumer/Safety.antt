-- ===== src/ProducerConsumer/Safety.antt =====
-- What main-two-cvs-while.c and main-one-cv-while.c guarantee, for any numbers of threads and any
-- interleaving.
use sysprg.Prelude.{ℕ, ◌≤◌, ◌<◌, ◌≡◌, true, List, [], ◌∷◌, ◌++◌, arith, length}
use sysprg.Prelude.Int.{ℤ}
use sysprg.Buffer.{Shared, ok, do_fill, do_get}
use sysprg.Buffer.Queue.{Represents, do_fill_lem, do_get_lem}
use sysprg.ProducerConsumer.{Config, System, Reach, value, p_fill, c_get}
use sysprg.ProducerConsumer.Invariant.{Inv, Stored, holds, value-ne, Reach-Inv}

taken-some :
    (s : Shared) (q : List ℤ)
    → Represents s q
    → 0 < length q
    → (v : ℤ) × (t : Shared) × (do_get s ≡ ok (v, t))
taken-some s [] r h = absurd (omega arith)
taken-some s (v ∷ q) r h = (v, _, (do_get_lem r).0)

module _ (cfg : Config) (while_waits : cfg.program.retests ≡ true) (some_room : 0 < cfg.max) where
  -- With tests by `while`, as in main-two-cvs-while.c and main-one-cv-while.c, and a buffer of at
  -- least one slot: two threads are never between Mutex_lock and Mutex_unlock together.
  pub mutual_exclusion :
      {s : System} → Reach cfg s → (i j : ℕ) → holds (s.pc i) ≡ true → holds (s.pc j) ≡ true → i ≡ j
  mutual_exclusion {s} r i j hi hj = ground (arith, inv.owner i hi, inv.owner j hj)
    where
      inv : Inv cfg.max s
      inv = Reach-Inv cfg while_waits some_room r

  -- With tests by `while`, as in main-two-cvs-while.c and main-one-cv-while.c, and a buffer of at
  -- least one slot: in every reachable state, a thread that is about to call do_fill finds an
  -- `EMPTY` slot; the `ensure` in it does not fail, and the call returns.
  pub fill_returns :
      {s : System}
      → Reach cfg s
      → (id i : ℕ) → s.pc id ≡ p_fill i
      → (t : Shared) × (do_fill (value cfg id i) s.mem.shared ≡ ok t)
  fill_returns {s} r id i e =
      (_, (do_fill_lem st.represents (value cfg id i) room (value-ne cfg id i)).0)
    where
      inv : Inv cfg.max s
      inv = Reach-Inv cfg while_waits some_room r

      st : Stored cfg.max s.mem
      st = inv.stored

      room : length st.queue < s.mem.shared.max
      room = ground (arith, inv.knows id, st.represents.full, st.represents.fits, st.sized)

  -- With tests by `while`, as in main-two-cvs-while.c and main-one-cv-while.c, and a buffer of at
  -- least one slot: in every reachable state, a thread that is about to call do_get finds a value;
  -- the `ensure` in it does not fail, and the call returns.
  pub get_returns :
      {s : System}
      → Reach cfg s
      → (id n : ℕ) → s.pc id ≡ c_get n
      → (v : ℤ) × (t : Shared) × (do_get s.mem.shared ≡ ok (v, t))
  get_returns {s} r id n e =
      taken-some s.mem.shared st.queue st.represents
        (ground (arith, inv.knows id, st.represents.full))
    where
      inv : Inv cfg.max s
      inv = Reach-Inv cfg while_waits some_room r

      st : Stored cfg.max s.mem
      st = inv.stored

  -- With tests by `while`, as in main-two-cvs-while.c and main-one-cv-while.c, and a buffer of at
  -- least one slot: in every reachable state the buffer holds the values that were filled in and not
  -- yet taken out, and the values come out in the order in which they went in.
  pub first_in_first_out :
      {s : System}
      → Reach cfg s
      → (queue : List ℤ) × Represents s.mem.shared queue
        × (s.mem.put ≡ s.mem.got ++ queue)
        × (length queue ≤ cfg.max)
  first_in_first_out {s} r =
      (st.queue, st.represents, st.order, omega (arith, st.sized, st.represents.fits))
    where
      st : Stored cfg.max s.mem
      st = (Reach-Inv cfg while_waits some_room r).stored
