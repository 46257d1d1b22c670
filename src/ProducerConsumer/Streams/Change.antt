-- ===== src/ProducerConsumer/Streams/Change.antt =====
-- What one thread's step does to the ends of the streams.
use sysprg.Prelude.{ℕ, ◌+◌, ◌≤◌, ◌<◌, ◌≡◌, ◌≢◌, refl, ◌⊎◌, List, arith}
use sysprg.Prelude.Int.{ℤ}
use sysprg.Buffer.{end_of_stream}
use sysprg.ProducerConsumer.{
  Config, Mem, Move, value, Pc, Signals, Rouses, done, p_take, p_stop, p_put, c_take_out, p_signals,
  c_signals, p_rouses, c_rouses,
}
use sysprg.ProducerConsumer.Streams.{
  IsMaker, IsTaker, Within, filled, took, ends_in, weigh-last, one_if,
}

module _ (cfg : Config) where
  -- What a thread's step does here.
  pub record Change (id : ℕ) (put put' got got' : List ℤ) (p p' : Pc) : Type 0 where
    pub maker : IsMaker p → IsMaker p'
    pub taker : IsTaker p → IsTaker p'
    pub within : cfg.producers ≤ id → Within cfg.consumers p → Within cfg.consumers p'
    pub puts : cfg.producers ≤ id → IsMaker p → ends_in put' + filled p ≡ ends_in put + filled p'
    pub puts_none : (id < cfg.producers) ⊎ IsTaker p → ends_in put' ≡ ends_in put
    pub gets : IsTaker p → ends_in got' + took p ≡ ends_in got + took p'
    pub gets_none : IsMaker p → ends_in got' ≡ ends_in got
    pub goes_on : (i : ℕ) → p ≢ done i

  -- A step that puts nothing and takes nothing.
  still :
      {id : ℕ} {p p' : Pc} (put got : List ℤ)
      → (IsMaker p → IsMaker p')
      → (IsTaker p → IsTaker p')
      → (cfg.producers ≤ id → Within cfg.consumers p → Within cfg.consumers p')
      → (IsMaker p → filled p' ≡ filled p)
      → (IsTaker p → took p' ≡ took p)
      → ((i : ℕ) → p ≢ done i)
      → Change id put put got got p p'
  still put got maker taker within f t ne = record {
    maker = maker;
    taker = taker;
    within = within;
    puts = λ ge h. omega (arith, f h);
    puts_none = λ h. refl;
    gets = λ h. omega (arith, t h);
    gets_none = λ h. refl;
    goes_on = ne;
  }

  pub Move-Change :
      {id : ℕ} {m m' : Mem} {p p' : Pc}
      → Move cfg id m p m' p'
      → Change id m.put m'.put m.got m'.got p p'
  Move-Change {id} {m} (p_put {i} f) = record {
    maker = λ h. tt;
    taker = λ h. h;
    within = λ ge h. h;
    puts = λ ge h. ground (arith, weigh-last (one_if end_of_stream) m.put (value cfg id i));
    puts_none = λ h. ground (arith, h, weigh-last (one_if end_of_stream) m.put (value cfg id i));
    gets = λ h. refl;
    gets_none = λ h. refl;
    goes_on = λ i e. cc;
  }
  Move-Change {id} {m} (c_take_out {v} f) = record {
    maker = λ h. h;
    taker = λ h. tt;
    within = λ ge h. h;
    puts = λ ge h. refl;
    puts_none = λ h. refl;
    gets = λ h. omega (arith, weigh-last (one_if end_of_stream) m.got v);
    gets_none = λ h. absurd h;
    goes_on = λ i e. cc;
  }
  Move-Change {m} (p_take lt f) =
      still m.put m.got (λ h. tt) (λ h. h) (λ ge h. ground arith) (λ h. refl) (λ h. refl)
        (λ i e. cc)
  Move-Change {m} (p_stop le) =
      still m.put m.got (λ h. tt) (λ h. absurd h) (λ ge h. ground arith) (λ h. refl) (λ h. absurd h)
        (λ i e. cc)
  Move-Change {m} mv =
      still m.put m.got (λ h. ground arith) (λ h. ground arith) (λ ge h. ground arith)
        (λ h. ground arith) (λ h. ground arith) (λ i e. cc)

  pub Signals-Change :
      {id : ℕ} {p p' : Pc} (put got : List ℤ) → Signals p p' → Change id put put got got p p'
  Signals-Change put got p_signals =
      still put got (λ h. h) (λ h. h) (λ ge h. h) (λ h. refl) (λ h. refl) (λ i e. cc)
  Signals-Change put got c_signals =
      still put got (λ h. h) (λ h. h) (λ ge h. h) (λ h. refl) (λ h. refl) (λ i e. cc)

  pub Rouses-Change :
      {id : ℕ} {p p' : Pc} (put got : List ℤ) → Rouses p p' → Change id put put got got p p'
  Rouses-Change put got p_rouses =
      still put got (λ h. h) (λ h. h) (λ ge h. h) (λ h. refl) (λ h. refl) (λ i e. cc)
  Rouses-Change put got c_rouses =
      still put got (λ h. h) (λ h. h) (λ ge h. h) (λ h. refl) (λ h. refl) (λ i e. cc)
