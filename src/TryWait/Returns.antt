-- ===== src/TryWait/Returns.antt =====
-- vector-try-wait.c: all calls can return, whatever has happened so far.
use sysprg.Prelude.{
  inl, inr, ℕ, zero, suc, ◌+◌, ◌-◌, ◌≤◌, ◌<◌, ◌≡◌, ◌≢◌, refl, sym, ap, ◌∙◌, true, none, some,
  Option-cases, update, update_self, update_ne, ℕ_discrete, dec_lt, arith,
}
use sysprg.Prelude.Reach.{Reach, here, next, Reach-keeps, Reach-append}
use sysprg.VectorAdd.{Config}
use sysprg.NoLock.{dst, src}
use sysprg.TryWait.{
  Pc, top, second, backing, adding, unlock_dst, unlock_src, System, start, Step, takes_dst,
  fails_dst, takes_src, fails_src, backs_off, adds, unlocks_dst, unlocks_src, AnyStep, step,
}
use sysprg.TryWait.Exclusion.{held, Inv, apart, AnyStep-Inv, reached-Inv}

module _ (cfg : Config) where
  -- What thread `j` comes to by steps of its own.
  abbrev Goes : ℕ → System → (Pc → Type 0) → Type 0
  Goes j s to = (t : System) × Reach (Step cfg j) s t × to (t.pc j)

  abbrev IsTop : Pc → Type 0
  IsTop p = (r : ℕ) × (p ≡ top r)

  -- With both mutexes in its hands.
  adding-Goes :
      (j r : ℕ) (s0 s : System)
      → Reach (Step cfg j) s0 s
      → s.pc j ≡ adding r
      → Goes j s0 (λ p. p ≡ top (r + 1))
  adding-Goes j r s0 s run e =
      let pc1 = update s.pc j (unlock_dst r) in
      let pc2 = update pc1 j (unlock_src r) in
      (
        _,
        next (next (next run (adds r e)) (unlocks_dst r (update_self s.pc j)))
            (unlocks_src r (update_self pc1 j)),
        update_self pc2 j,
      )

  backing-Goes :
      (j r : ℕ) (s0 s : System)
      → Reach (Step cfg j) s0 s
      → s.pc j ≡ backing r
      → Goes j s0 (λ p. p ≡ top r)
  backing-Goes j r s0 s run e = (_, next run (backs_off r e), update_self s.pc j)

  -- From each place a thread comes back to the top by itself.
  come_back : (j : ℕ) (s : System) (p : Pc) → s.pc j ≡ p → Goes j s IsTop
  come_back j s (top r) e = (s, here, (r, e))
  come_back j s (second r) e = elim (Option-cases (s.owner (src cfg j))) [
    | inl free ↦
        let (t, run, f) =
          adding-Goes j r s _ (next here (takes_src r e free)) (update_self s.pc j) in
        (t, run, (r + 1, f))
    | inr (i, has) ↦
        let (t, run, f) =
          backing-Goes j r s _ (next here (fails_src r e (λ f. cc))) (update_self s.pc j) in
        (t, run, (r, f))
  ]
  come_back j s (backing r) e = let (t, run, f) = backing-Goes j r s s here e in (t, run, (r, f))
  come_back j s (adding r) e = let (t, run, f) = adding-Goes j r s s here e in (t, run, (r + 1, f))
  come_back j s (unlock_dst r) e = (
    _,
    next (next here (unlocks_dst r e)) (unlocks_src r (update_self s.pc j)),
    (r + 1, update_self (update s.pc j (unlock_src r)) j),
  )
  come_back j s (unlock_src r) e = (_, next here (unlocks_src r e), (r + 1, update_self s.pc j))

  -- A whole call, where both mutexes are free.
  call-Goes :
      (j r : ℕ) (s : System)
      → s.pc j ≡ top r
      → r < cfg.loops
      → s.owner (dst cfg j) ≡ none
      → s.owner (src cfg j) ≡ none
      → Goes j s (λ p. p ≡ top (r + 1))
  call-Goes j r s e lt d f =
      adding-Goes j r s _
        (next (next here (takes_dst r e lt d)) (
          takes_src r (update_self s.pc j)
            (update_ne s.owner (dst cfg j) (src cfg j) (some j) (apart cfg j) ∙ f)))
        (update_self (update s.pc j (second r)) j)

  -- The steps of thread `j` move no other.
  Step-other : (j l : ℕ) (s t : System) → j ≢ l → Step cfg j s t → t.pc l ≡ s.pc l
  Step-other j l s _ ne (takes_dst r e lt o) = update_ne s.pc j l _ ne
  Step-other j l s _ ne (fails_dst r e lt o) = refl
  Step-other j l s _ ne (takes_src r e o) = update_ne s.pc j l _ ne
  Step-other j l s _ ne (fails_src r e o) = update_ne s.pc j l _ ne
  Step-other j l s _ ne (backs_off r e) = update_ne s.pc j l _ ne
  Step-other j l s _ ne (adds r e) = update_ne s.pc j l _ ne
  Step-other j l s _ ne (unlocks_dst r e) = update_ne s.pc j l _ ne
  Step-other j l s _ ne (unlocks_src r e) = update_ne s.pc j l _ ne

  Reach-other : (j l : ℕ) (s t : System) → j ≢ l → Reach (Step cfg j) s t → t.pc l ≡ s.pc l
  Reach-other j l s _ ne here = refl
  Reach-other j l s _ ne (next {t} {u} r st) = Step-other j l t u ne st ∙ Reach-other j l s t ne r

  Reach-any :
      (j : ℕ) (s t : System)
      → j < cfg.num_threads
      → Reach (Step cfg j) s t
      → Reach (AnyStep cfg) s t
  Reach-any j s _ lt here = here
  Reach-any j s _ lt (next {t} {u} r st) = next (Reach-any j s t lt r) (step j lt st)

  run-Inv :
      (j : ℕ) (s t : System) → j < cfg.num_threads → Reach (Step cfg j) s t → Inv cfg s → Inv cfg t
  run-Inv j s t lt r inv =
      Reach-keeps (AnyStep cfg) (Inv cfg) (AnyStep-Inv cfg) inv (Reach-any j s t lt r)

  abbrev AllTop : System → Type 0
  AllTop s = (i : ℕ) → IsTop (s.pc i)

  AllTop-run :
      (j r : ℕ) (s t : System) → Reach (Step cfg j) s t → t.pc j ≡ top r → AllTop s → AllTop t
  AllTop-run j r s t run e tops i = elim (ℕ_discrete j i) [
    | yes f ↦ (r, ap t.pc (sym f) ∙ e)
    | no ne ↦ ((tops i).0, Reach-other j i s t ne run ∙ (tops i).1)
  ]

  free : (s : System) (l : ℕ) → AllTop s → Inv cfg s → s.owner l ≡ none
  free s l tops inv = elim (Option-cases (s.owner l)) [
    | inl e ↦ e
    | inr (i, e) ↦
        let f : held cfg i (top (tops i).0) l ≡ true = rw ((tops i).1) at (inv.owning i l e) in
        absurd (cc)
  ]

  -- The first `k` threads come to the top, one after the other.
  settle :
      (k : ℕ) (s : System)
      → k ≤ cfg.num_threads
      → (t : System) × Reach (AnyStep cfg) s t × ((i : ℕ) → i < k → IsTop (t.pc i))
  settle zero s le = (s, here, λ i lt. absurd (omega arith))
  settle (suc k) s le =
      let (t, run, tops) = settle k s (omega arith) in
      let (u, own, at_top) = come_back k t (t.pc k) refl in
      (
        u,
        Reach-append (AnyStep cfg) run (Reach-any k t u (omega arith) own),
        λ i lt. elim (ℕ_discrete k i) [
          | yes f ↦ (at_top.0, ap u.pc (sym f) ∙ at_top.1)
          | no ne ↦
              let before = tops i (omega arith) in (before.0, Reach-other k i t u ne own ∙ before.1)
        ],
      )

  -- The `m` calls that thread `j` has left, while the others are at the top.
  calls :
      (m j r : ℕ) (s : System)
      → j < cfg.num_threads
      → AllTop s
      → Inv cfg s
      → s.pc j ≡ top r
      → r + m ≡ cfg.loops
      → Goes j s (λ p. p ≡ top cfg.loops)
  calls zero j r s lt tops inv e h =
      let last : r ≡ cfg.loops = omega arith in (s, here, e ∙ ap top last)
  calls (suc m) j r s lt tops inv e h =
      let (t, run, f) = call-Goes j r s e (omega arith) (free s _ tops inv) (free s _ tops inv) in
      let (u, more, g) =
        calls m j (r + 1) t lt (AllTop-run j (r + 1) s t run f tops) (run-Inv j s t lt run inv) f
          (omega arith) in
      (u, Reach-append (Step cfg j) run more, g)

  -- The first `k` threads make all their calls, one after the other.
  finish :
      (k : ℕ) (s : System)
      → k ≤ cfg.num_threads
      → AllTop s
      → Inv cfg s
      → (t : System) × Reach (AnyStep cfg) s t
        × AllTop t
        × Inv cfg t
        × ((i : ℕ) → i < k → t.pc i ≡ top cfg.loops)
  finish zero s le tops inv = (s, here, tops, inv, λ i lt. absurd (omega arith))
  finish (suc k) s le tops inv =
      let (t, run, tops', inv', ends) = finish k s (omega arith) tops inv in
      let lt : k < cfg.num_threads = omega arith in
      let (r, e) = tops' k in
      let within : r ≤ cfg.loops = rw e at (inv'.within k) in
      let (u, own, f) = calls (cfg.loops - r) k r t lt tops' inv' e (omega arith) in
      (
        u,
        Reach-append (AnyStep cfg) run (Reach-any k t u lt own),
        AllTop-run k cfg.loops t u own f tops',
        run-Inv k t u lt own inv',
        λ i small. elim (ℕ_discrete k i) [
          | yes g ↦ ap u.pc (sym g) ∙ f
          | no ne ↦ Reach-other k i t u ne own ∙ ends i (omega arith)
        ],
      )

  -- No deadlock, and none to come: from every state that is reached the program can go on to one
  -- where all calls of all threads have returned. (It need not: two threads can fail and back off
  -- again and again.)
  pub can_return :
      (s : System)
      → Reach (AnyStep cfg) start s
      → (t : System) × Reach (AnyStep cfg) s t
        × ((j : ℕ) → j < cfg.num_threads → t.pc j ≡ top cfg.loops)
  can_return s r =
      let (t, run, tops) = settle cfg.num_threads s (omega arith) in
      let inv = Reach-keeps (AnyStep cfg) (Inv cfg) (AnyStep-Inv cfg) (reached-Inv cfg r) run in
      let all : AllTop t = λ i. elim (dec_lt i cfg.num_threads) [
        | yes lt ↦ tops i lt
        | no ge ↦ (0, inv.idle i (omega arith))
      ] in
      let (u, more, _, _, ends) = finish cfg.num_threads t (omega arith) all inv in
      (u, Reach-append (AnyStep cfg) run more, ends)
