-- ===== src/NoLock.antt =====
-- concurrency/threads-bugs/vector-nolock.c: `vector_add` by fetch_and_add, without mutexes, as the
-- threads of main-common.c call it.
--
-- A step reads a value of the source, or adds it to the destination: fetch_and_add is one atomic
-- instruction.
pub mod Shares
pub mod Invariant
pub mod Totals
mod Tests
use sysprg.Prelude.{
  ℕ, zero, suc, ◌+◌, ◌*◌, ◌%◌, ◌^◌, ◌≤◌, ◌<◌, ◌≡◌, ltb, List, [], ◌∷◌, if◌then◌else◌, update, set,
  get_or,
}
use sysprg.VectorAdd.{Store, vector_size, Config, ThreadArg, thread_arg, vector_init}

-- The old value, and the values with `value` added to `variable`, the slot `i` of `v[dst]`
abbrev pub fetch_and_add : Store → ℕ → ℕ → ℕ → ℕ × Store
fetch_and_add v dst i value =
    (get_or (v dst) i 0, update v dst (set (v dst) i ((get_or (v dst) i 0 + value) % 2 ^ 32)))

-- Where a thread stands: how many of its calls have returned, and the slot.
pub data Pc : Type 0 where
  at : ℕ → ℕ → Pc  -- at the head of the loop of vector_add
  adding : ℕ → ℕ → ℕ → Pc  -- before fetch_and_add, with the value read

pub record System : Type 0 where
  pub values : Store
  pub pc : ℕ → Pc

abbrev pub start : System
start = record { values = vector_init; pc = λ j. at 0 0 }

module _ (cfg : Config) where
  -- `v0` and `v1` of `worker`
  unfoldable pub dst : ℕ → ℕ
  unfolding thread_arg
  dst j =
      let args = thread_arg cfg j in if args.vector_add_order then args.vector_1 else args.vector_0

  unfoldable pub src : ℕ → ℕ
  unfolding thread_arg
  src j =
      let args = thread_arg cfg j in if args.vector_add_order then args.vector_0 else args.vector_1

  pub data Step (s : System) : System → Type 0 where
    reads :
        (j r i : ℕ)
        → j < cfg.num_threads
        → s.pc j ≡ at r i
        → r < cfg.loops
        → i < vector_size
        → Step s (record s { pc = update s.pc j (adding r i (get_or (s.values (src j)) i 0)) })
    adds :
        (j r i value : ℕ)
        → j < cfg.num_threads
        → s.pc j ≡ adding r i value
        → Step s (record {
          values = (fetch_and_add s.values (dst j) i value).1;
          pc = update s.pc j (at r (i + 1));
        })
    returns :
        (j r : ℕ)
        → j < cfg.num_threads
        → s.pc j ≡ at r vector_size
        → Step s (record s { pc = update s.pc j (at (r + 1) 0) })
