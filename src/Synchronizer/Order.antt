-- ===== src/Synchronizer/Order.antt =====
-- main-signal-cv.c: the order of the two lines, and that the program ends.
use sysprg.Prelude.{
  ℕ, ◌+◌, ◌≤◌, ◌<◌, ◌≡◌, ◌≢◌, refl, true, ◌⊎◌, inl, inr, [], ◌∷◌, arith, if◌then◌else◌, ℕ_discrete,
}
use sysprg.Prelude.Reach.{Reach, Reach-keeps, steps, steps_bounded}
use sysprg.Synchronizer.{
  Owner, nobody, by_main, by_worker, first, last, MainPc, m_init, m_create, m_lock, m_test, m_wait,
  m_asleep, m_woken, m_unlock, m_print, m_end, WorkerPc, w_none, w_print, w_lock, w_set, w_signal,
  w_unlock, w_end, System, start, Step, AnyStep, signal_init, create, main_lock, test_again,
  test_done, cond_wait, relock, main_unlock, print_last, print_first, worker_lock, set_done,
  cond_signal, worker_unlock,
}
use sysprg.Synchronizer.Places.{Inv, start-Inv, Step-Inv, AnyStep-Inv, has_signalled, has_set}

reached-Inv : {s : System} → Reach AnyStep start s → Inv s
reached-Inv r = Reach-keeps AnyStep Inv AnyStep-Inv start-Inv r

-- The worker can go on, but at its two ends and before a mutex that is taken.
worker-Step :
    (s : System) (w : WorkerPc)
    → s.w ≡ w
    → w ≢ w_none
    → w ≢ w_end
    → (w ≡ w_lock → s.owner ≡ nobody)
    → (t : System) × Step s t
worker-Step s w_none e a b f = absurd (a refl)
worker-Step s w_print e a b f = (_, print_first e)
worker-Step s w_lock e a b f = (_, worker_lock e (f refl))
worker-Step s w_set e a b f = (_, set_done e)
worker-Step s w_signal e a b f = (_, cond_signal e)
worker-Step s w_unlock e a b f = (_, worker_unlock e)
worker-Step s w_end e a b f = absurd (b refl)

-- Before its mutex `main` goes on if it is free; otherwise the worker has it, and goes on.
locking-Step :
    (s : System) (o : Owner)
    → Inv s
    → s.owner ≡ o
    → (s.m ≡ m_lock) ⊎ (s.m ≡ m_woken)
    → (t : System) × Step s t
locking-Step s nobody inv e (inl m) = (_, main_lock m e)
locking-Step s nobody inv e (inr m) = (_, relock m e)
locking-Step s by_main inv e m = absurd (ground (arith, inv.owned))
locking-Step s by_worker inv e m =
    worker-Step s s.w refl (ground (arith, inv.owned)) (ground (arith, inv.owned))
      (ground (arith, inv.owned))

abbrev Ended : System → Type 0
Ended s = (s.m ≡ m_end) × (s.w ≡ w_end)

end-Step :
    (s : System) (w : WorkerPc)
    → Inv s
    → s.m ≡ m_end
    → s.w ≡ w
    → Ended s ⊎ ((t : System) × Step s t)
end-Step s w_end inv m e = inl (m, e)
end-Step s w_signal inv m e = inr (_, cond_signal e)
end-Step s w_unlock inv m e = inr (_, worker_unlock e)
end-Step s w_none inv m e = absurd (ground (arith, inv.places))
end-Step s w_print inv m e = absurd (ground (arith, inv.places))
end-Step s w_lock inv m e = absurd (ground (arith, inv.places))
end-Step s w_set inv m e = absurd (ground (arith, inv.places))

Inv-Step : (s : System) (m : MainPc) → Inv s → s.m ≡ m → Ended s ⊎ ((t : System) × Step s t)
Inv-Step s m_init inv e = inr (_, signal_init e)
Inv-Step s m_create inv e = inr (_, create e)
Inv-Step s m_lock inv e = inr (locking-Step s s.owner inv refl (inl e))
Inv-Step s m_test inv e = elim (ℕ_discrete s.done 0) [
  | yes d ↦ inr (_, test_again e d)
  | no d ↦ inr (_, test_done e d)
]
Inv-Step s m_wait inv e = inr (_, cond_wait e)
Inv-Step s m_asleep inv e = inr (
    worker-Step s s.w refl (ground (arith, inv.places)) (ground (arith, inv.places))
      (ground (arith, inv.places, inv.owned)))
Inv-Step s m_woken inv e = inr (locking-Step s s.owner inv refl (inr e))
Inv-Step s m_unlock inv e = inr (_, main_unlock e)
Inv-Step s m_print inv e = inr (_, print_last e)
Inv-Step s m_end inv e = end-Step s s.w inv e refl

-- In every state that the program can come to, also if `main` wakes with no signal: "this should print
-- last" is printed only after "this should print first", each at most once; and both threads have
-- ended with both lines printed, or a thread can go on without a wake-up that nobody sent.
pub ordered_progress :
    (s : System)
    → Reach AnyStep start s
    → ((s.printed ≡ []) ⊎ ((s.printed ≡ first ∷ []) ⊎ (s.printed ≡ last ∷ first ∷ [])))
      × ((Ended s × (s.printed ≡ last ∷ first ∷ [])) ⊎ ((t : System) × Step s t))
ordered_progress s r = (lines s.m s.w refl refl, finish (Inv-Step s s.m inv refl))
  where
    inv : Inv s
    inv = reached-Inv r

    lines :
        (m : MainPc) (w : WorkerPc)
        → s.m ≡ m
        → s.w ≡ w
        → (s.printed ≡ []) ⊎ ((s.printed ≡ first ∷ []) ⊎ (s.printed ≡ last ∷ first ∷ []))
    lines m w e f = ground (arith, inv.lines, inv.places)

    finish :
        Ended s ⊎ ((t : System) × Step s t)
        → (Ended s × (s.printed ≡ last ∷ first ∷ [])) ⊎ ((t : System) × Step s t)
    finish (inl (m, w)) = inl ((m, w), ground (arith, inv.lines))
    finish (inr st) = inr st

main_rank : MainPc → WorkerPc → ℕ
main_rank m_init w = 9
main_rank m_create w = 8
main_rank m_lock w = 7
main_rank m_test w = if has_set w then 3 else 6
main_rank m_wait w = 5
main_rank m_asleep w = 4
main_rank m_woken w = 4
main_rank m_unlock w = 2
main_rank m_print w = 1
main_rank m_end w = 0

worker_rank : WorkerPc → ℕ
worker_rank w_none = 5
worker_rank w_print = 5
worker_rank w_lock = 4
worker_rank w_set = 3
worker_rank w_signal = 2
worker_rank w_unlock = 1
worker_rank w_end = 0

-- How many steps are left at most.
left : System → ℕ
unfolding main_rank worker_rank
left s = main_rank s.m s.w + worker_rank s.w

-- Without wake-ups that nobody sent, `main` wakes only after the signal.
record Signalled (s : System) : Type 0 where
  inv : Inv s
  woken : s.m ≡ m_woken → has_signalled s.w ≡ true

still_woken : (s t : System) → Step s t → Signalled s → t.m ≡ m_woken → has_signalled t.w ≡ true
still_woken s _ (signal_init e) h k = ground (arith, h.woken)
still_woken s _ (create e) h k = ground (arith, h.woken)
still_woken s _ (main_lock e o) h k = ground (arith, h.woken)
still_woken s _ (test_again e d) h k = ground (arith, h.woken)
still_woken s _ (test_done e d) h k = ground (arith, h.woken)
still_woken s _ (cond_wait e) h k = ground (arith, h.woken)
still_woken s _ (relock e o) h k = ground (arith, h.woken)
still_woken s _ (main_unlock e) h k = ground (arith, h.woken)
still_woken s _ (print_last e) h k = ground (arith, h.woken)
still_woken s _ (print_first e) h k = ground (arith, h.woken)
still_woken s _ (worker_lock e o) h k = ground (arith, h.woken)
still_woken s _ (set_done e) h k = ground (arith, h.woken)
still_woken s _ (cond_signal e) h k = ground (arith, h.woken)
still_woken s _ (worker_unlock e) h k = ground (arith, h.woken)

Step-Signalled : (s t : System) → Step s t → Signalled s → Signalled t
Step-Signalled s t st h = record { inv = Step-Inv s t st h.inv; woken = still_woken s t st h }

start-Signalled : Signalled start
unfolding start
start-Signalled = record { inv = start-Inv; woken = λ e. absurd (cc) }

Step-left : (s t : System) → Step s t → Signalled s → left t < left s
unfolding left
Step-left s _ (signal_init e) h = ground arith
Step-left s _ (create e) h = ground (arith, h.inv.places)
Step-left s _ (main_lock e o) h = ground arith
Step-left s _ (test_again e d) h = ground (arith, h.inv.flag)
Step-left s _ (test_done e d) h = ground (arith, h.inv.flag)
Step-left s _ (cond_wait e) h = ground arith
Step-left s _ (relock e o) h = ground (arith, h.woken)
Step-left s _ (main_unlock e) h = ground arith
Step-left s _ (print_last e) h = ground arith
Step-left s _ (print_first e) h = ground arith
Step-left s _ (worker_lock e o) h = ground arith
Step-left s _ (set_done e) h = ground arith
Step-left s _ (cond_signal e) h = ground arith
Step-left s _ (worker_unlock e) h = ground arith

-- A run without such wake-ups has at most 14 steps, from the start to the end of both threads.
pub steps_of_run : (s : System) (r : Reach Step start s) → steps Step r ≤ 14
unfolding start left
steps_of_run s r =
    omega (arith, steps_bounded Step Signalled left Step-Signalled Step-left start-Signalled r)
