-- ===== src/ReaderWriter.antt =====
-- concurrency/threads-sema/reader-writer.c and reader-writer-nostarve.c: a lock for many readers or
-- one writer, from two semaphores and a counter, with the loops of `reader` and `writer`.
--
-- A step is one statement. POSIX: `sem_wait` takes one from a semaphore that is not 0 and blocks on
-- one that is 0; `sem_post` adds one.
pub mod Invariant
pub mod Exclusion
mod Tests
use sysprg.Prelude.{
  ℕ, zero, suc, ◌+◌, ◌-◌, ◌≤◌, ◌<◌, ◌≡◌, ◌≢◌, Bool, true, false, if◌then◌else◌, ltb, ◌==◌, update,
}

-- `rwlock_t`, and the variable `value` that it guards. `readers` is an `int` in the source; it is
-- counted down only by a reader that has counted it up.
pub record RwLock : Type 0 where
  pub lock : ℕ
  pub writelock : ℕ
  pub readers : ℕ
  pub value : ℕ

-- Where a thread stands; the number is how many rounds of its loop are done.
pub data Pc : Type 0 where
  r_start : ℕ → Pc  -- rwlock_acquire_readlock: before sem_wait(&rw->lock)
  r_count : ℕ → Pc  -- before rw->readers++
  r_first : ℕ → Pc  -- at the test rw->readers == 1
  r_grab : ℕ → Pc  -- before sem_wait(&rw->writelock)
  r_enter : ℕ → Pc  -- before sem_post(&rw->lock)
  reading : ℕ → Pc  -- in the critical section
  r_leave : ℕ → Pc  -- rwlock_release_readlock: before sem_wait(&rw->lock)
  r_uncount : ℕ → Pc  -- before rw->readers--
  r_last : ℕ → Pc  -- at the test rw->readers == 0
  r_give : ℕ → Pc  -- before the second sem_wait(&rw->writelock)
  r_exit : ℕ → Pc  -- before sem_post(&rw->lock)
  w_show : ℕ → Pc  -- before the printf of rw->readers, in one of the programs
  w_start : ℕ → Pc  -- rwlock_acquire_writelock: before sem_wait(&rw->writelock)
  writing : ℕ → Pc  -- before value++
  w_leave : ℕ → Pc  -- rwlock_release_writelock: before sem_post(&rw->writelock)
  done : Pc

-- The command line, and whether `rwlock_acquire_writelock` prints the readers first.
pub record Config : Type 0 where
  pub shows : Bool
  pub num_readers : ℕ
  pub num_writers : ℕ
  pub loops : ℕ

-- `rwlock_init`
unfoldable pub rwlock_init : RwLock
rwlock_init = record { lock = 1; writelock = 1; readers = 0; value = 0 }

module _ (cfg : Config) where
  -- The head of the loop of `writer`.
  abbrev pub w_head : ℕ → Pc
  w_head i = if ltb i cfg.loops then (if cfg.shows then w_show i else w_start i) else done

  -- The head of the loop of `reader`.
  abbrev pub r_head : ℕ → Pc
  r_head i = if ltb i cfg.loops then r_start i else done

  pub data Move (m : RwLock) : Pc → RwLock → Pc → Type 0 where
    take_lock :
        {i : ℕ} → 0 < m.lock → Move m (r_start i) (record m { lock = m.lock - 1 }) (r_count i)
    count : {i : ℕ} → Move m (r_count i) (record m { readers = m.readers + 1 }) (r_first i)
    is_first : {i : ℕ} → m.readers ≡ 1 → Move m (r_first i) m (r_grab i)
    not_first : {i : ℕ} → m.readers ≢ 1 → Move m (r_first i) m (r_enter i)
    grab :
        {i : ℕ}
        → 0 < m.writelock
        → Move m (r_grab i) (record m { writelock = m.writelock - 1 }) (r_enter i)
    post_lock : {i : ℕ} → Move m (r_enter i) (record m { lock = m.lock + 1 }) (reading i)
    read : {i : ℕ} → Move m (reading i) m (r_leave i)
    retake_lock :
        {i : ℕ} → 0 < m.lock → Move m (r_leave i) (record m { lock = m.lock - 1 }) (r_uncount i)
    uncount : {i : ℕ} → Move m (r_uncount i) (record m { readers = m.readers - 1 }) (r_last i)
    is_last : {i : ℕ} → m.readers ≡ 0 → Move m (r_last i) m (r_give i)
    not_last : {i : ℕ} → m.readers ≢ 0 → Move m (r_last i) m (r_exit i)
    give :
        {i : ℕ}
        → 0 < m.writelock
        → Move m (r_give i) (record m { writelock = m.writelock - 1 }) (r_exit i)
    repost_lock : {i : ℕ} → Move m (r_exit i) (record m { lock = m.lock + 1 }) (r_head (suc i))
    show : {i : ℕ} → Move m (w_show i) m (w_start i)
    take_write :
        {i : ℕ}
        → 0 < m.writelock
        → Move m (w_start i) (record m { writelock = m.writelock - 1 }) (writing i)
    write : {i : ℕ} → Move m (writing i) (record m { value = m.value + 1 }) (w_leave i)
    post_write :
        {i : ℕ} → Move m (w_leave i) (record m { writelock = m.writelock + 1 }) (w_head (suc i))

  -- The readers come first, then the writers.
  abbrev pub first_pc : ℕ → Pc
  first_pc id =
      if ltb id cfg.num_readers
      then r_head 0
      else if ltb id (cfg.num_readers + cfg.num_writers)
      then w_head 0
      else done

-- The lock and the threads.
pub record System : Type 0 where
  pub mem : RwLock
  pub pc : ℕ → Pc

module _ (cfg : Config) where
  abbrev pub init : System
  init = record { mem = rwlock_init; pc = first_pc cfg }

  pub data Step (s : System) : System → Type 0 where
    act :
        (id : ℕ) {m : RwLock} {p : Pc}
        → Move cfg s.mem (s.pc id) m p
        → Step s (record { mem = m; pc = update s.pc id p })

  pub data Steps (s : System) : System → Type 0 where
    here : Steps s s
    later : {t u : System} → Steps s t → Step t u → Steps s u

-- The command lines of the two programs: readers, writers, loops. Only reader-writer-nostarve.c
-- prints the readers.
abbrev pub reader_writer : ℕ → ℕ → ℕ → Config
reader_writer num_readers num_writers loops = record {
  shows = false;
  num_readers = num_readers;
  num_writers = num_writers;
  loops = loops;
}

abbrev pub reader_writer_nostarve : ℕ → ℕ → ℕ → Config
reader_writer_nostarve num_readers num_writers loops = record {
  shows = true;
  num_readers = num_readers;
  num_writers = num_writers;
  loops = loops;
}
