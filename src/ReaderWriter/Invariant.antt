-- ===== src/ReaderWriter/Invariant.antt =====
-- Who has the two semaphores of the readers-writers lock.
use sysprg.Prelude.{
  ℕ, ◌<◌, ◌≡◌, ◌≢◌, refl, Bool, true, false, Option, none, some, update, ◌⊎◌, inl, inr, arith,
}
use sysprg.ReaderWriter.{
  RwLock, Pc, Config, Move, System, Step, Steps, init, rwlock_init, here, later, act, r_count,
  r_first, r_grab, r_enter, reading, r_leave, r_uncount, r_last, r_give, r_exit, writing, r_head,
  w_head, w_leave, take_lock, is_first, not_first, grab, post_lock, retake_lock, give, repost_lock,
  take_write, post_write,
}

-- The places between `sem_wait(&rw->lock)` and `sem_post(&rw->lock)`.
abbrev pub inside : Pc → Bool
inside (r_count _) = true
inside (r_first _) = true
inside (r_grab _) = true
inside (r_enter _) = true
inside (r_uncount _) = true
inside (r_last _) = true
inside (r_give _) = true
inside (r_exit _) = true
inside _ = false

-- The places of a writer that has `writelock`.
abbrev pub writes : Pc → Bool
writes (writing _) = true
writes (w_leave _) = true
writes _ = false

-- The places of a reader after its wait for `writelock`, or past that of another reader.
abbrev pub admitted : Pc → Bool
admitted (r_enter _) = true
admitted (reading _) = true
admitted (r_leave _) = true
admitted (r_uncount _) = true
admitted (r_last _) = true
admitted (r_give _) = true
admitted (r_exit _) = true
admitted _ = false

-- A reader that has counted itself and may not have waited for `writelock` yet.
abbrev pub entering : Pc → Bool
entering (r_first _) = true
entering (r_grab _) = true
entering _ = false

-- Who took `writelock` last and has not posted it.
pub data Holder : Type 0 where
  nobody : Holder
  readers : Holder
  writer : ℕ → Holder

abbrev pub free : Holder → ℕ
free nobody = 1
free _ = 0

abbrev pub unlocked : Option ℕ → ℕ
unlocked none = 1
unlocked (some _) = 0

-- Whoever has `lock` is a reader that has just counted itself.
abbrev pub Enters : (ℕ → Pc) → Option ℕ → Type 0
Enters pc none = ⊥
Enters pc (some j) = entering (pc j) ≡ true

readers-cases : (h : Holder) → (h ≡ readers) ⊎ (h ≢ readers)
readers-cases nobody = inr (λ e. cc)
readers-cases readers = inl refl
readers-cases (writer i) = inr (λ e. cc)

pub record Inv (s : System) : Type 0 where
  pub owner : Option ℕ
  pub holder : Holder
  pub lock_value : s.mem.lock ≡ unlocked owner
  pub writelock_value : s.mem.writelock ≡ free holder
  pub owns : (j : ℕ) → inside (s.pc j) ≡ true → owner ≡ some j
  pub has_writelock : (j : ℕ) → writes (s.pc j) ≡ true → holder ≡ writer j
  pub let_in : (j : ℕ) → admitted (s.pc j) ≡ true → holder ≡ readers
  pub enters : (j : ℕ) → entering (s.pc j) ≡ true → 0 < s.mem.readers
  -- A counted reader has `writelock` for all readers, but for one that is about to wait for it.
  pub counted : 0 < s.mem.readers → holder ≢ readers → (s.mem.readers ≡ 1) × Enters s.pc owner

module _ {cfg : Config} (id : ℕ) where
  abbrev owner_after : {m m' : RwLock} {p p' : Pc} → Option ℕ → Move cfg m p m' p' → Option ℕ
  owner_after o (take_lock _) = some id
  owner_after o (retake_lock _) = some id
  owner_after o post_lock = none
  owner_after o repost_lock = none
  owner_after o _ = o

  abbrev holder_after : {m m' : RwLock} {p p' : Pc} → Holder → Move cfg m p m' p' → Holder
  holder_after h (grab _) = readers
  holder_after h (give _) = readers
  holder_after h (take_write _) = writer id
  holder_after h post_write = nobody
  holder_after h _ = h

-- The premise of a move, for the catch-all clauses below.
abbrev Guard : {cfg : Config} {m m' : RwLock} {p p' : Pc} → Move cfg m p m' p' → Type 0
Guard {m} (take_lock _) = 0 < m.lock
Guard {m} (retake_lock _) = 0 < m.lock
Guard {m} (is_first _) = m.readers ≡ 1
Guard {m} (not_first _) = m.readers ≢ 1
Guard {m} (grab _) = 0 < m.writelock
Guard {m} (give _) = 0 < m.writelock
Guard {m} (take_write _) = 0 < m.writelock
Guard _ = Unit

guard : {cfg : Config} {m m' : RwLock} {p p' : Pc} (mv : Move cfg m p m' p') → Guard mv
guard (take_lock g) = g
guard (retake_lock g) = g
guard (is_first g) = g
guard (not_first g) = g
guard (grab g) = g
guard (give g) = g
guard (take_write g) = g
guard _ = tt

-- Where a thread goes at the end of a round.
ends_outside :
    (cfg : Config) (i : ℕ)
    → (inside (r_head cfg i) ≡ false)
      × (writes (r_head cfg i) ≡ false)
      × (admitted (r_head cfg i) ≡ false)
      × (entering (r_head cfg i) ≡ false)
      × (inside (w_head cfg i) ≡ false)
      × (writes (w_head cfg i) ≡ false)
      × (admitted (w_head cfg i) ≡ false)
      × (entering (w_head cfg i) ≡ false)
ends_outside cfg i = ground arith

module _ {cfg : Config} {id : ℕ} {m : RwLock} {pc : ℕ → Pc}
    (inv : Inv (record { mem = m; pc = pc })) where
  open inv use {
    owner, holder, lock_value, writelock_value, owns, has_writelock, let_in, enters, counted,
  }

  Move-lock_value :
      {p p' : Pc} {m' : RwLock} (mv : Move cfg m p m' p')
      → pc id ≡ p
      → m'.lock ≡ unlocked (owner_after id owner mv)
  Move-lock_value (take_lock g) e = ground (arith, lock_value)
  Move-lock_value mv e = ground (arith, guard mv, lock_value, owns id)

  Move-writelock_value :
      {p p' : Pc} {m' : RwLock} (mv : Move cfg m p m' p')
      → pc id ≡ p
      → m'.writelock ≡ free (holder_after id holder mv)
  Move-writelock_value (take_lock g) e = writelock_value
  Move-writelock_value mv e = ground (arith, guard mv, writelock_value, has_writelock id, let_in id)

  Move-owns :
      {p p' : Pc} {m' : RwLock} (mv : Move cfg m p m' p')
      → pc id ≡ p
      → (j : ℕ) → inside (update pc id p' j) ≡ true
      → owner_after id owner mv ≡ some j
  Move-owns (take_lock g) e j h = ground (arith, lock_value, owns j)
  Move-owns mv e j h = ground (arith, guard mv, lock_value, owns j, owns id)

  Move-has_writelock :
      {p p' : Pc} {m' : RwLock} (mv : Move cfg m p m' p')
      → pc id ≡ p
      → (j : ℕ) → writes (update pc id p' j) ≡ true
      → holder_after id holder mv ≡ writer j
  Move-has_writelock (take_lock g) e j h = ground (arith, has_writelock j)
  Move-has_writelock mv e j h =
      ground (arith, guard mv, writelock_value, has_writelock j, has_writelock id)

  Move-let_in :
      {p p' : Pc} {m' : RwLock} (mv : Move cfg m p m' p')
      → pc id ≡ p
      → (j : ℕ) → admitted (update pc id p' j) ≡ true
      → holder_after id holder mv ≡ readers
  Move-let_in (take_lock g) e j h = ground (arith, let_in j)
  Move-let_in (not_first g) e j h = elim (readers-cases holder) [
    | inl r ↦ r
    | inr n ↦ absurd (g (counted (enters id (ground arith)) n).0)
  ]
  Move-let_in mv e j h =
      ground (arith, guard mv, writelock_value, let_in j, let_in id, has_writelock id)

  Move-enters :
      {p p' : Pc} {m' : RwLock} (mv : Move cfg m p m' p')
      → pc id ≡ p
      → (j : ℕ) → entering (update pc id p' j) ≡ true
      → 0 < m'.readers
  Move-enters (take_lock g) e j h = ground (arith, enters j)
  Move-enters mv e j h = ground (arith, guard mv, enters j, enters id, owns j, owns id)

  Move-counted :
      {p p' : Pc} {m' : RwLock} (mv : Move cfg m p m' p')
      → pc id ≡ p
      → 0 < m'.readers
      → holder_after id holder mv ≢ readers
      → (m'.readers ≡ 1) × Enters (update pc id p') (owner_after id owner mv)
  Move-counted (take_lock g) e r n = ground (arith, counted, lock_value)
  Move-counted mv e r n =
      ground (arith, guard mv, counted, lock_value, owns id, let_in id, has_writelock id)

  Move-readers :
      {p p' : Pc} {m' : RwLock} (mv : Move cfg m p m' p')
      → pc id ≡ p
      → holder ≡ readers
      → holder_after id holder mv ≡ readers
  Move-readers (take_lock g) e h = h
  Move-readers mv e h = ground (arith, guard mv, writelock_value, has_writelock id)

pub Step-Inv : {cfg : Config} {s t : System} → Step cfg s t → Inv s → Inv t
Step-Inv (act id mv) inv = record {
  owner = owner_after id inv.owner mv;
  holder = holder_after id inv.holder mv;
  lock_value = Move-lock_value inv mv refl;
  writelock_value = Move-writelock_value inv mv refl;
  owns = Move-owns inv mv refl;
  has_writelock = Move-has_writelock inv mv refl;
  let_in = Move-let_in inv mv refl;
  enters = Move-enters inv mv refl;
  counted = Move-counted inv mv refl;
}

Inv-init : (cfg : Config) → Inv (init cfg)
unfolding rwlock_init
Inv-init cfg = record {
  owner = none;
  holder = nobody;
  lock_value = refl;
  writelock_value = refl;
  owns = λ j h. ground arith;
  has_writelock = λ j h. ground arith;
  let_in = λ j h. ground arith;
  enters = λ j h. ground arith;
  counted = λ r n. absurd (omega arith);
}

pub Steps-Inv : {cfg : Config} {s t : System} → Steps cfg s t → Inv s → Inv t
Steps-Inv here inv = inv
Steps-Inv (later r st) inv = Step-Inv st (Steps-Inv r inv)

pub Reach-Inv : (cfg : Config) {s : System} → Steps cfg (init cfg) s → Inv s
Reach-Inv cfg r = Steps-Inv r (Inv-init cfg)

-- The same, in a state in which the readers have `writelock`.
abbrev pub ReadersHold : System → Type 0
ReadersHold s = (inv : Inv s) × (inv.holder ≡ readers)

Step-ReadersHold : {cfg : Config} {s t : System} → Step cfg s t → ReadersHold s → ReadersHold t
unfolding Step-Inv
Step-ReadersHold (act id mv) (inv, e) = (Step-Inv (act id mv) inv, Move-readers inv mv refl e)

-- Once the readers have `writelock` they keep it.
pub Steps-ReadersHold :
    {cfg : Config} {s t : System} → Steps cfg s t → ReadersHold s → ReadersHold t
Steps-ReadersHold here h = h
Steps-ReadersHold (later r st) h = Step-ReadersHold st (Steps-ReadersHold r h)
