-- ===== src/NoLock/Totals.antt =====
-- vector-nolock.c: what the vectors hold when all threads have ended.
use sysprg.Prelude.{
  ◌⊎◌, inl, inr, ℕ, zero, suc, ◌+◌, ◌*◌, ◌%◌, ◌^◌, ◌<◌, ◌≡◌, ◌≢◌, refl, sym, ap, ◌∙◌, true, false,
  Bool-cases, ltb_ge, ==-eq, ==-ne, if◌then◌else◌, get_or, update, update_self, dec_lt, arith,
}
use sysprg.Prelude.Reach.{Reach, Reach-keeps}
use sysprg.Prelude.Sums.{sum, sum_change}
use sysprg.VectorAdd.{vector_size, Config, thread_arg}
use sysprg.NoLock.{Pc, at, adding, System, start, dst, src, Step, reads, adds, returns}
use sysprg.NoLock.Shares.{sum_zero, share}
use sysprg.NoLock.Invariant.{Place, IsApart, Inv, Step-Inv, start-Inv}

sum_const : (n c : ℕ) (f : ℕ → ℕ) → ((j : ℕ) → j < n → f j ≡ c) → sum n f ≡ n * c
sum_const zero c f h = omega arith
sum_const (suc n) c f h = grind (arith, sum_const n c f (λ j lt. h j (omega arith)), h n)

sum_one : (n j : ℕ) (f : ℕ → ℕ) → j < n → ((l : ℕ) → j ≢ l → f l ≡ 0) → sum n f ≡ f j
sum_one n j f lt h =
    omega (arith, sum_change n j (λ l. 0) f lt h, sum_zero n (λ l. 0) (λ l lt'. refl))

module _ (cfg : Config) (in_order : cfg.cause_deadlock ≡ false) where
  dst_lem : (j : ℕ) → dst cfg j ≡ (if cfg.enable_parallelism then j * 2 else 0)
  unfolding dst thread_arg
  dst_lem j = rw (in_order) refl

  src_lem : (j : ℕ) → src cfg j ≡ (if cfg.enable_parallelism then j * 2 + 1 else 1)
  unfolding src thread_arg
  src_lem j = rw (in_order) refl

  start-IsApart : cfg.num_threads < 100 → IsApart cfg
  start-IsApart few = elim (Bool-cases cfg.enable_parallelism) [
    | inl e ↦ record {
      apart = λ j l lt ltl f.
          let d : dst cfg l ≡ l * 2 = dst_lem l ∙ rw e refl in
          let t : src cfg j ≡ j * 2 + 1 = src_lem j ∙ rw e refl in omega (arith, d, t, f);
      small = λ j lt. let t : src cfg j ≡ j * 2 + 1 = src_lem j ∙ rw e refl in omega (arith, t);
    }
    | inr e ↦ record {
      apart = λ j l lt ltl f.
          let d : dst cfg l ≡ 0 = dst_lem l ∙ rw e refl in
          let t : src cfg j ≡ 1 = src_lem j ∙ rw e refl in omega (arith, d, t, f);
      small = λ j lt. let t : src cfg j ≡ 1 = src_lem j ∙ rw e refl in omega (arith, t);
    }
  ]

  -- All calls of `vector_add` have returned.
  abbrev pub Ended : System → Type 0
  Ended s = (j : ℕ) → j < cfg.num_threads → s.pc j ≡ at cfg.loops 0

  module _ (s : System) (h : Ended s) (k : ℕ) where
    share_ended :
        (x l : ℕ)
        → l < cfg.num_threads
        → dst cfg l ≡ x
        → share cfg s.pc x k l ≡ cfg.loops * src cfg l
    share_ended x l lt e = rw (==-eq _ _ e, h l lt, ltb_ge k 0 (omega arith)) (grind arith)

    serial : (j : ℕ) → cfg.enable_parallelism ≡ false → dst cfg j ≡ 0
    serial j e = dst_lem j ∙ rw e refl

    other : (j l : ℕ) → cfg.enable_parallelism ≡ true → j ≢ l → dst cfg l ≢ dst cfg j
    other j l e ne f =
        let a : dst cfg l ≡ l * 2 = dst_lem l ∙ rw e refl in
        let b : dst cfg j ≡ j * 2 = dst_lem j ∙ rw e refl in ne (omega (arith, a, b, f))

    sum_parallel :
        (j : ℕ)
        → cfg.enable_parallelism ≡ true
        → j < cfg.num_threads
        → sum cfg.num_threads (share cfg s.pc (dst cfg j) k) ≡ cfg.loops * (j * 2 + 1)
    sum_parallel j e lt =
        sum_one cfg.num_threads j (share cfg s.pc (dst cfg j) k) lt
          (λ l ne. rw (==-ne (dst cfg l) (dst cfg j) (other j l e ne)) refl)
        ∙ share_ended (dst cfg j) j lt refl
        ∙ ap (λ q. cfg.loops * q) (src_lem j ∙ rw e refl)

    sum_serial :
        (j : ℕ)
        → cfg.enable_parallelism ≡ false
        → sum cfg.num_threads (share cfg s.pc (dst cfg j) k) ≡ cfg.num_threads * (cfg.loops * 1)
    sum_serial j e =
        sum_const cfg.num_threads (cfg.loops * 1) (share cfg s.pc (dst cfg j) k) (λ l lt.
          share_ended (dst cfg j) l lt (serial l e ∙ sym (serial j e))
          ∙ ap (λ q. cfg.loops * q) (src_lem l ∙ rw e refl))

  reached-Inv : cfg.num_threads < 100 → {s : System} → Reach (Step cfg) start s → Inv cfg s
  reached-Inv few r =
      Reach-keeps (Step cfg) (Inv cfg) (Step-Inv cfg (start-IsApart few)) (start-Inv cfg) r

  -- Without `-d` and for fewer than 100 threads: when all calls have returned, whatever order the
  -- steps of the threads had, no addition is lost. With `-p` each thread has added its second vector
  -- to its first once for each loop, and without it all threads have added vector 1, which
  -- holds ones, to vector 0; sums are taken modulo 2 ^ 32.
  pub nolock_totals :
      (s : System)
      → cfg.num_threads < 100
      → Reach (Step cfg) start s
      → Ended s
      → (j k : ℕ) → j < cfg.num_threads
      → k < vector_size
      → get_or (s.values (dst cfg j)) k 0 ≡ (
          if cfg.enable_parallelism
          then (j * 2 + cfg.loops * (j * 2 + 1)) % 2 ^ 32
          else (cfg.num_threads * cfg.loops) % 2 ^ 32)
  nolock_totals s few r h j k lt ks =
      let inv = reached-Inv few r in
      elim (Bool-cases cfg.enable_parallelism) [
        | inl e ↦
            let d : dst cfg j ≡ j * 2 = dst_lem j ∙ rw e refl in
            inv.exact (dst cfg j) k (omega (arith, d)) ks
            ∙ (let f : dst cfg j + sum cfg.num_threads (share cfg s.pc (dst cfg j) k)
                    ≡ j * 2 + cfg.loops * (j * 2 + 1) =
                  omega (arith, d, sum_parallel s h k j e lt) in
                rw (f, e) refl)
        | inr e ↦
            let d : dst cfg j ≡ 0 = dst_lem j ∙ rw e refl in
            inv.exact (dst cfg j) k (omega (arith, d)) ks
            ∙ (let f : dst cfg j + sum cfg.num_threads (share cfg s.pc (dst cfg j) k)
                    ≡ cfg.num_threads * cfg.loops =
                  grind (arith, d, sum_serial s h k j e) in
                rw (f, e) refl)
      ]

  -- For fewer than 100 threads, a thread whose calls have not all returned can always take a step of
  -- its own: none waits for another.
  pub nolock_progress :
      (s : System)
      → cfg.num_threads < 100
      → Reach (Step cfg) start s
      → (j : ℕ) → j < cfg.num_threads
      → (s.pc j ≡ at cfg.loops 0) ⊎ ((t : System) × Step cfg s t × (t.pc j ≢ s.pc j))
  nolock_progress s few r j lt = go (s.pc j) refl ((reached-Inv few r).place j)
    where
      moved : (p q : Pc) → s.pc j ≡ q → p ≢ q → update s.pc j p j ≢ s.pc j
      moved p q e ne f = ne (sym (update_self s.pc j) ∙ f ∙ e)

      go :
          (p : Pc)
          → s.pc j ≡ p
          → Place cfg j p
          → (s.pc j ≡ at cfg.loops 0) ⊎ ((t : System) × Step cfg s t × (t.pc j ≢ s.pc j))
      go (adding r i value) e h = inr (_, adds j r i value lt e, moved _ _ e (λ f. cc))
      go (at r i) e (h, inr (er, ei)) = inl (rw (er, ei) at e)
      go (at r i) e (h, inl more) = elim (dec_lt i vector_size) [
        | yes ih ↦ inr (_, reads j r i lt e more ih, moved _ _ e (λ f. cc))
        | no ge ↦
            let last : i ≡ vector_size = omega arith in
            inr (
              _,
              returns j r lt (rw last at e),
              moved (at (r + 1) 0) (at r i) e (λ f. let g : r + 1 ≡ r = cc in omega (arith, g)),
            )
      ]
