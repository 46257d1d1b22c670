-- ===== src/ProducerConsumer/Tally/Passes.antt =====
-- What one thread's step does to the tally.
use sysprg.Prelude.{
  ℕ, suc, ◌+◌, ◌≡◌, ◌≢◌, refl, ◌⊎◌, inl, inr, List, [], ◌∷◌, ◌++◌, length, length-append, arith,
}
use sysprg.Prelude.Int.{ℤ}
use sysprg.ProducerConsumer.{
  Config, Mem, Move, value, rounds, Pc, Signals, Rouses, done, p_take, p_stop, p_put, c_take_out,
  p_signals, c_signals, p_rouses, c_rouses,
}
use sysprg.ProducerConsumer.Streams.{IsMaker, IsTaker, Within, filled}
use sysprg.ProducerConsumer.Tally.{consumed}

module _ (cfg : Config) where
  -- Nothing is put, or the next value is.
  abbrev pub Adds : ℕ → List ℤ → List ℤ → ℕ → ℕ → Type 0
  Adds id put put' n n' =
      ((put' ≡ put) × (n' ≡ n)) ⊎ ((put' ≡ put ++ value cfg id n ∷ []) × (n' ≡ suc n))

  -- What a thread's step does to the tally.
  pub record Passes (id : ℕ) (put put' got got' : List ℤ) (p p' : Pc) : Type 0 where
    pub adds : IsMaker p → Adds id put put' (filled p) (filled p')
    pub keeps : IsMaker p → got' ≡ got
    pub leaves : IsTaker p → put' ≡ put
    pub takes : IsTaker p → length got' + consumed p ≡ length got + consumed p'
    pub stays : Within (rounds cfg id) p → Within (rounds cfg id) p'
    pub runs : (i : ℕ) → p ≢ done i

  -- A step that puts nothing and takes nothing.
  still :
      {id : ℕ} {p p' : Pc} (put got : List ℤ)
      → (IsMaker p → filled p' ≡ filled p)
      → (IsTaker p → consumed p ≡ consumed p')
      → (Within (rounds cfg id) p → Within (rounds cfg id) p')
      → ((i : ℕ) → p ≢ done i)
      → Passes id put put got got p p'
  still put got f c w ne = record {
    adds = λ h. inl (refl, f h);
    keeps = λ h. refl;
    leaves = λ h. refl;
    takes = λ h. omega (arith, c h);
    stays = w;
    runs = ne;
  }

  pub Move-Passes :
      {id : ℕ} {m m' : Mem} {p p' : Pc}
      → Move cfg id m p m' p'
      → Passes id m.put m'.put m.got m'.got p p'
  Move-Passes (p_put f) = record {
    adds = λ h. inr (refl, refl);
    keeps = λ h. refl;
    leaves = λ h. absurd h;
    takes = λ h. absurd h;
    stays = λ h. h;
    runs = λ i e. cc;
  }
  Move-Passes {m} (c_take_out {v} f) = record {
    adds = λ h. absurd h;
    keeps = λ h. absurd h;
    leaves = λ h. refl;
    takes = λ h. omega (arith, length-append m.got (v ∷ []));
    stays = λ h. h;
    runs = λ i e. cc;
  }
  Move-Passes {m} (p_take lt f) = still m.put m.got (λ h. refl) (λ h. refl) (λ h. lt) (λ i e. cc)
  Move-Passes {m} (p_stop le) =
      still m.put m.got (λ h. refl) (λ h. absurd h) (λ h. omega (arith, le, h)) (λ i e. cc)
  Move-Passes {m} mv =
      still m.put m.got (λ h. ground arith) (λ h. ground arith) (λ h. ground arith) (λ i e. cc)

  pub Signals-Passes :
      {id : ℕ} {p p' : Pc} (put got : List ℤ) → Signals p p' → Passes id put put got got p p'
  Signals-Passes put got p_signals = still put got (λ h. refl) (λ h. refl) (λ h. h) (λ i e. cc)
  Signals-Passes put got c_signals = still put got (λ h. refl) (λ h. refl) (λ h. h) (λ i e. cc)

  pub Rouses-Passes :
      {id : ℕ} {p p' : Pc} (put got : List ℤ) → Rouses p p' → Passes id put put got got p p'
  Rouses-Passes put got p_rouses = still put got (λ h. refl) (λ h. refl) (λ h. h) (λ i e. cc)
  Rouses-Passes put got c_rouses = still put got (λ h. refl) (λ h. refl) (λ h. h) (λ i e. cc)
