-- ===== src/VectorAdd/Guarded.antt =====
-- threads-bugs, threads-api: threads that take their mutexes under one more, which they take first, do
-- not deadlock: who waits for one of the others has that one, and who has one of the others
-- without it waits for nothing.
use sysprg.Prelude.{
  ℕ, ◌≡◌, ◌≢◌, refl, ◌⊎◌, inl, inr, Bool, true, false, some, List, [], ◌∷◌, update, arith,
  Option-cases,
}
use mathlib.Core.Path.{subst}
use sysprg.VectorAdd.{Action, lock, unlock, add, System, Step, do_lock, do_unlock, do_add}
use sysprg.VectorAdd.Owners.{Follows, Inv, no_mutex}

module _ (g : ℕ) where
  -- The row of a thread that has the mutexes `held`: it takes none that it has, and takes `g`
  -- first, with none in its hands, and the others only while it has `g`.
  unfoldable pub Careful : (ℕ → Bool) → List Action → Type 0
  Careful held [] = (l : ℕ) → held l ≡ false
  Careful held (lock l ∷ k) =
      (held l ≡ false)
      × (((x : ℕ) → held x ≡ false) ⊎ (held g ≡ true))
      × Careful (update held l true) k
  Careful held (unlock l ∷ k) = (held l ≡ true) × Careful (update held l false) k
  Careful held (add dst src ∷ k) = Careful held k

  pub Careful-Follows : Follows Careful
  unfolding Careful
  Careful-Follows = record {
    locks = λ held l k h. h.2;
    unlocks = λ held l k h. h;
    adds = λ held dst src k h. h;
  }

  pub Careful-done : Careful no_mutex []
  unfolding Careful
  Careful-done = λ l. refl

  module _ {s : System} (inv : Inv Careful s) where
    row : {j : ℕ} {r : List Action} → s.rest j ≡ r → Careful (inv.held j) r
    row {j} e = subst (Careful (inv.held j)) e (inv.rows j)

    -- A thread that has a mutex can step, or has `g` and waits for one that it has not.
    holder_steps :
        (j l : ℕ) (r : List Action)
        → s.rest j ≡ r
        → inv.held j l ≡ true
        → ((x : ℕ) (k : List Action)
            → s.rest j ≡ lock x ∷ k
            → inv.held j g ≡ true
            → inv.held j x ≡ false
            → (t : System) × Step s t)
        → (t : System) × Step s t
    unfolding Careful
    holder_steps j l [] e h wait = let f : inv.held j l ≡ false = row e l in absurd (cc)
    holder_steps j l (lock x ∷ k) e h wait = elim (row e).1 [
      | inl nothing ↦ let f : inv.held j l ≡ false = nothing l in absurd (cc)
      | inr has ↦ wait x k e has (row e).0
    ]
    holder_steps j l (unlock x ∷ k) e h wait = (_, do_unlock j x k e)
    holder_steps j l (add dst src ∷ k) e h wait = (_, do_add j dst src k e)

    -- Who has `g` steps, or the thread does that it waits for.
    guard_steps :
        (j x : ℕ) (k : List Action)
        → s.rest j ≡ lock x ∷ k
        → inv.held j g ≡ true
        → inv.held j x ≡ false
        → (t : System) × Step s t
    guard_steps j x k e has without = elim (Option-cases (s.owner x)) [
      | inl nobody ↦ (_, do_lock j x k e nobody)
      | inr (i, owns) ↦
          holder_steps i x (s.rest i) refl (inv.owning i x owns)
            (λ y k' e' has' without'. absurd (same i owns has'))
    ]
      where
        same : (i : ℕ) → s.owner x ≡ some i → inv.held i g ≡ true → ⊥
        same i owns has' =
            ground (arith, inv.owned i g has', inv.owned j g has, inv.owning i x owns)

    waiter_steps : (id l : ℕ) (k : List Action) → s.rest id ≡ lock l ∷ k → (t : System) × Step s t
    waiter_steps id l k e = elim (Option-cases (s.owner l)) [
      | inl nobody ↦ (_, do_lock id l k e nobody)
      | inr (j, has) ↦ holder_steps j l (s.rest j) refl (inv.owning j l has) (guard_steps j)
    ]

    pub some-Step : (id : ℕ) (r : List Action) → s.rest id ≡ r → r ≢ [] → (t : System) × Step s t
    some-Step id [] e ne = absurd (ne refl)
    some-Step id (lock l ∷ k) e ne = waiter_steps id l k e
    some-Step id (unlock l ∷ k) e ne = (_, do_unlock id l k e)
    some-Step id (add dst src ∷ k) e ne = (_, do_add id dst src k e)
