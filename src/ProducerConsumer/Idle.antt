-- ===== src/ProducerConsumer/Idle.antt =====
-- main-two-cvs-while.c with the mutex free: a thread can go on unless all sleep.
use sysprg.Prelude.{
  ℕ, zero, suc, ◌<◌, ◌≤◌, ◌≡◌, refl, ap, ◌∙◌, ◌⊎◌, inl, inr, true, false, Option, none, some, arith,
  ℕ_discrete, dec_lt,
}
use mathlib.Core.Path.{subst}
use sysprg.Prelude.Sums.{sum_member}
use sysprg.ProducerConsumer.{
  Config, Mem, System, Move, Reach, rounds, main_id, MayRun, Pc, p_lock, p_wait, p_woken, c_lock,
  c_wait, c_woken, done, p_take, p_stop, p_retake, c_take, c_retake,
}
use sysprg.ProducerConsumer.Invariant.{holds, Reach-Inv}
use sysprg.ProducerConsumer.Credits.{
  brings_room, brings_value, threads, total, waits_room, waits_value,
}
use sysprg.ProducerConsumer.Streams.{took, IsTaker, AllDone, IsMaker}
use sysprg.ProducerConsumer.Streams.Kept.{Reach-Streams}
use sysprg.ProducerConsumer.Running.{Goes, acts}
use sysprg.ProducerConsumer.Holding.{locked-Goes}

-- A thread that is blocked in Cond_wait or has returned.
abbrev pub Sleeps : Pc → Type 0
Sleeps (p_wait _) = Unit
Sleeps (c_wait _) = Unit
Sleeps (done _) = Unit
Sleeps _ = ⊥

all_or {ℓ} :
    {A : Type ℓ} (n : ℕ) (P : ℕ → Type 0)
    → ((j : ℕ) → j < n → A ⊎ P j)
    → A ⊎ ((j : ℕ) → j < n → P j)
all_or zero P h = inr (λ j lt. absurd (omega arith))
all_or (suc n) P h = elim (all_or n P (λ j lt. h j (omega arith))) [
  | inl a ↦ inl a
  | inr all ↦ elim (h n (omega arith)) [
    | inl a ↦ inl a
    | inr here ↦ inr (λ j lt. elim (ℕ_discrete n j) [
      | yes e ↦ subst P e here
      | no ne ↦ all j (omega (arith, lt, ne))
    ])
  ]
]

pub Sleeps-done :
    (p : Pc) → Sleeps p → waits_room p ≡ 0 → waits_value p ≡ 0 → (i : ℕ) × (p ≡ done i)
Sleeps-done (done i) h a b = (i, refl)
Sleeps-done (p_wait i) h a b = absurd (omega arith)
Sleeps-done (c_wait i) h a b = absurd (omega arith)
Sleeps-done _ h a b = absurd h

pub maker_waits : (p : Pc) → IsMaker p → waits_value p ≡ 0
maker_waits (c_wait i) h = absurd h
maker_waits _ h = refl

pub Sleeps-quiet : (p : Pc) → Sleeps p → (brings_room p ≡ 0) × (brings_value p ≡ 0)
Sleeps-quiet (p_wait i) h = (refl, refl)
Sleeps-quiet (p_lock i) h = absurd h
Sleeps-quiet p h = ground arith

pub taker_waits : (p : Pc) → IsTaker p → (waits_room p ≡ 0) × (took p ≤ 1)
taker_waits (p_wait i) h = absurd h
taker_waits p h = ground arith

pub value_waiter : (p : Pc) → 0 < waits_value p → took p ≡ 0
value_waiter (c_wait n) h = refl
value_waiter (p_lock i) h = refl
value_waiter p h = ground arith

pub record Idle (cfg : Config) (pc : ℕ → Pc) : Type 0 where
  pub workers : (j : ℕ) → j < main_id cfg → Sleeps (pc j)
  pub main_idle :
      Sleeps (pc (main_id cfg))
      ⊎ ((pc (main_id cfg) ≡ p_lock 0) × (0 < total waits_room (threads cfg) pc))

module _ (cfg : Config) (while_waits : cfg.program.retests ≡ true)
    (two_cvs : cfg.program.one_cv ≡ false) (some_room : 0 < cfg.max) {s : System}
    (r : Reach cfg s) where
  module _ (free : s.mem.lock ≡ none) where
    acts_at :
        (id : ℕ) (m : Mem) (p q : Pc)
        → id < threads cfg
        → MayRun cfg s.pc id
        → s.pc id ≡ p
        → Move cfg id s.mem p m q
        → Goes cfg s ⊎ Sleeps p
    acts_at id m p q lt may e mv = inl (acts cfg {s = s} {id = id} {m = m} {p = q} lt may (rw e mv))

    not_held : (id : ℕ) (p : Pc) → s.pc id ≡ p → holds p ≡ true → Goes cfg s ⊎ Sleeps p
    not_held id p e h =
        let o : s.mem.lock ≡ some id =
          (Reach-Inv cfg while_waits some_room r).owner id (ap holds e ∙ h) in
        absurd (cc)

    free_thread :
        (id : ℕ) (p : Pc)
        → id < threads cfg
        → MayRun cfg s.pc id
        → s.pc id ≡ p
        → Goes cfg s ⊎ Sleeps p
    free_thread id (p_lock i) lt may e = elim (dec_lt i (rounds cfg id)) [
      | yes more ↦ acts_at id _ _ _ lt may e (p_take more free)
      | no no_more ↦ acts_at id _ _ _ lt may e (p_stop (omega (arith, no_more)))
    ]
    free_thread id (p_woken i) lt may e = acts_at id _ _ _ lt may e (p_retake free)
    free_thread id (c_lock n) lt may e = acts_at id _ _ _ lt may e (c_take free)
    free_thread id (c_woken n) lt may e = acts_at id _ _ _ lt may e (c_retake free)
    free_thread id (p_wait i) lt may e = inr tt
    free_thread id (c_wait n) lt may e = inr tt
    free_thread id (done i) lt may e = inr tt
    free_thread id p lt may e = not_held id p e refl

    workers_asleep : Goes cfg s ⊎ ((j : ℕ) → j < main_id cfg → Sleeps (s.pc j))
    workers_asleep =
        all_or (main_id cfg) (λ j. Sleeps (s.pc j))
          (λ j lt. free_thread j (s.pc j) (omega arith) (λ e. absurd (omega (arith, e))) refl)

    module _ (asleep : (j : ℕ) → j < main_id cfg → Sleeps (s.pc j)) where
      main_runs : AllDone cfg s.pc → Goes cfg s ⊎ Idle cfg s.pc
      main_runs all =
          elim (free_thread (main_id cfg) (s.pc (main_id cfg)) (omega arith) (λ e. all) refl) [
            | inl goes ↦ inl goes
            | inr sleeps ↦ inr (record { workers = asleep; main_idle = inl sleeps })
          ]

      main_idles : Goes cfg s ⊎ Idle cfg s.pc
      main_idles = elim (Reach-Streams cfg while_waits two_cvs some_room r).late [
        | inr all ↦ main_runs all
        | inl at_start ↦ elim (ℕ_discrete (total waits_room (threads cfg) s.pc) 0) [
          | no some_wait ↦
              inr
                (record { workers = asleep; main_idle = inr (at_start, omega (arith, some_wait)) })
          | yes none_wait ↦ main_runs (λ j lt.
              Sleeps-done (s.pc j) (asleep j (omega arith))
                (omega (
                  arith,
                  none_wait,
                  sum_member (threads cfg) j (λ k. waits_room (s.pc k)) (omega arith),
                ))
                (maker_waits (s.pc j)
                  ((Reach-Streams cfg while_waits two_cvs some_room r).makers j lt)))
        ]
      ]

    unlocked-Goes : Goes cfg s ⊎ Idle cfg s.pc
    unlocked-Goes = elim workers_asleep [ inl goes ↦ inl goes | inr asleep ↦ main_idles asleep ]

  by_lock : (l : Option ℕ) → s.mem.lock ≡ l → Goes cfg s ⊎ Idle cfg s.pc
  by_lock none e = unlocked-Goes e
  by_lock (some j) e = inl (locked-Goes cfg while_waits two_cvs some_room r j e)

  pub goes_or_idles : Goes cfg s ⊎ Idle cfg s.pc
  goes_or_idles = by_lock s.mem.lock refl
