-- ===== src/Barrier/Threads/Inside.antt =====
-- barrier.c: children that are all inside at one time.
use mathlib.Core.Path.{subst}
use sysprg.Prelude.{
  ℕ, ◌+◌, ◌≤◌, ◌<◌, ◌≡◌, ◌≢◌, refl, sym, ap, ◌∙◌, ◌⊎◌, inl, inr, update, update_self, update_ne,
  ℕ_discrete, arith,
}
use sysprg.Prelude.Int.{neg_part}
use sysprg.Prelude.Reach.{Reach, Reach-keeps}
use sysprg.Prelude.Sums.{sum_moved, sum}
use sysprg.Barrier.Threads.{
  Pc, says_before, locks_in, counts_in, plays_in, posts_in, locks_out, counts_out, plays_out,
  posts_out, says_after, finished, System, start, counted_out, count_out, Move, say_before, lock_in,
  decrement, play_in, post_in, lock_out, increment, play_out, post_out, say_after, Step, step,
}
use sysprg.Barrier.Threads.Counts.{inside, holds, Inv, Step-Inv, alone, player, count_out_lem}
use sysprg.Barrier.Threads.Progress.{AllFinished, goes_on}
use sysprg.Barrier.Threads.Fresh.{Past, Fresh, players_in, reached-Fresh}

-- From where all children are inside.
abbrev Late : Pc → Type 0
Late says_before = ⊥
Late locks_in = ⊥
Late counts_in = ⊥
Late plays_in = ⊥
Late posts_in = ⊥
Late locks_out = Unit
Late counts_out = Unit
Late plays_out = Unit
Late posts_out = Unit
Late says_after = Unit
Late finished = Unit

record Leaving (n : ℕ) (s : System) : Type 0 where
  inv : Inv n s
  late : (j : ℕ) → j < n → Late (s.pc j)
  ready : 0 < players_in n s → 1 ≤ s.b.playlock
  last : (j : ℕ) → j < n → s.pc j ≡ plays_out → (players_in n s ≡ 0) × (1 ≤ s.b.playlock)

Late-moved :
    (n i : ℕ) (s : System) (p : Pc)
    → ((j : ℕ) → j < n → Late (s.pc j))
    → Late p
    → (j : ℕ) → j < n
    → Late (update s.pc i p j)
Late-moved n i s p all new j lt = elim (ℕ_discrete i j) [
  | yes f ↦ subst Late (sym (update_self s.pc i) ∙ ap (update s.pc i p) f) new
  | no ne ↦ subst Late (sym (update_ne s.pc i j p ne)) (all j lt)
]

not-Late : (n i : ℕ) (s : System) (x : Pc) → s.pc i ≡ x → i < n → Leaving n s → Late x
not-Late n i s x e lt h = subst Late e (h.late i lt)

was_out :
    (i j : ℕ) (s : System) (p : Pc)
    → p ≢ plays_out
    → update s.pc i p j ≡ plays_out
    → (i ≢ j) × (s.pc j ≡ plays_out)
was_out i j s p ne e = elim (ℕ_discrete i j) [
  | yes k ↦ absurd (ne (sym (update_self s.pc i) ∙ ap (update s.pc i p) k ∙ e))
  | no k ↦ (k, sym (update_ne s.pc i j p k) ∙ e)
]

-- A step to a place other than plays_out, with as many children inside and the same `playlock`.
quiet :
    (n i : ℕ) (s t : System) (p : Pc)
    → Inv n t
    → i < n
    → t.pc ≡ update s.pc i p
    → t.b.playlock ≡ s.b.playlock
    → inside p ≡ inside (s.pc i)
    → Late p
    → p ≢ plays_out
    → Leaving n s
    → Leaving n t
quiet n i s t p invt lt f g same new ne h = record {
  inv = invt;
  late = subst (λ q. (j : ℕ) → j < n → Late (q j)) (sym f) (Late-moved n i s p h.late new);
  ready = λ some_in. omega (arith, h.ready (omega (arith, same_in, some_in)), g);
  last = λ j ltj e.
      let was : s.pc j ≡ plays_out = before j (ap (λ q. q j) (sym f) ∙ e) in
      let (none_in, room) = h.last j ltj was in
      (omega (arith, same_in, none_in), omega (arith, room, g));
}
  where
    same_in : players_in n t ≡ players_in n s
    same_in =
        ap (λ q. sum n (λ k. inside (q k))) f ∙ omega (arith, sum_moved inside n i s.pc p lt, same)

    before : (j : ℕ) → update s.pc i p j ≡ plays_out → s.pc j ≡ plays_out
    before j e = (was_out i j s p ne e).1

left_in :
    (n i : ℕ) (s : System) (x p : Pc)
    → i < n
    → s.pc i ≡ x
    → sum n (λ k. inside (update s.pc i p k)) + inside x ≡ players_in n s + inside p
left_in n i s x p lt e =
    let f : inside (s.pc i) ≡ inside x = ap inside e in
    omega (arith, sum_moved inside n i s.pc p lt, f)

incremented :
    (n i : ℕ) (s : System) (p : Pc)
    → i < n
    → s.pc i ≡ counts_out
    → Leaving n s
    → (counted_out (count_out s.b) ≡ p)
    → ((p ≡ plays_out) × (neg_part s.b.players ≡ 1))
      ⊎ ((p ≡ posts_out) × (1 < neg_part s.b.players))
    → Leaving n (record { b = count_out s.b; pc = update s.pc i p })
incremented n i s p lt e h f c = record {
  inv =
      subst (λ q. Inv n (record { b = count_out s.b; pc = update s.pc i q })) f
        (Step-Inv n s _ (step i lt (increment e)) h.inv);
  late = Late-moved n i s p h.late (late c);
  ready = λ some_in. room;
  last = last c;
}
  where
    room : 1 ≤ s.b.playlock
    room = h.ready (omega (arith, player n i s lt e h.inv, h.inv.players))

    late :
        ((p ≡ plays_out) × (neg_part s.b.players ≡ 1))
          ⊎ ((p ≡ posts_out) × (1 < neg_part s.b.players))
        → Late p
    late (inl (g, one)) = subst Late (sym g) tt
    late (inr (g, more)) = subst Late (sym g) tt

    last :
        ((p ≡ plays_out) × (neg_part s.b.players ≡ 1))
          ⊎ ((p ≡ posts_out) × (1 < neg_part s.b.players))
        → (j : ℕ) → j < n
        → update s.pc i p j ≡ plays_out
        → (sum n (λ k. inside (update s.pc i p k)) ≡ 0) × (1 ≤ s.b.playlock)
    last (inl (g, one)) j ltj k =
        let zero_in : inside p ≡ 0 = ap inside g in
        (omega (arith, left_in n i s counts_out p lt e, zero_in, one, h.inv.players), room)
    last (inr (g, more)) j ltj k =
        let none_in = (h.last j ltj (was_out i j s p (λ o. cc) k).1).0 in
        absurd (omega (arith, none_in, more, h.inv.players))

Move-Leaving : (n i : ℕ) (s t : System) → i < n → Move i s t → Leaving n s → Leaving n t
Move-Leaving n i s _ lt (say_before e) h = absurd (not-Late n i s _ e lt h)
Move-Leaving n i s _ lt (lock_in k e f) h = absurd (not-Late n i s _ e lt h)
Move-Leaving n i s _ lt (decrement e) h = absurd (not-Late n i s _ e lt h)
Move-Leaving n i s _ lt (play_in k e f) h = absurd (not-Late n i s _ e lt h)
Move-Leaving n i s _ lt (post_in e) h = absurd (not-Late n i s _ e lt h)
Move-Leaving n i s _ lt (lock_out k e f) h =
    quiet n i s _ _ (Step-Inv n s _ (step i lt (lock_out k e f)) h.inv) lt refl refl
      (ap inside (sym e)) tt (λ g. cc) h
Move-Leaving n i s _ lt (increment e) h =
    let (none_more, one_less, to) = count_out_lem s.b h.inv.no_more (player n i s lt e h.inv) in
    incremented n i s _ lt e h refl to
Move-Leaving n i s _ lt (play_out k e f) h = record {
  inv = Step-Inv n s _ (step i lt (play_out k e f)) h.inv;
  late = Late-moved n i s posts_out h.late tt;
  ready = λ some_in.
      absurd (omega (arith, some_in, left_in n i s plays_out posts_out lt e, (h.last i lt e).0));
  last = λ j ltj g.
      let (ne, was) = was_out i j s posts_out (λ o. cc) g in
      absurd (ne (alone n i j s h.inv lt ltj (ap holds e) (ap holds was)));
}
Move-Leaving n i s _ lt (post_out e) h =
    quiet n i s _ _ (Step-Inv n s _ (step i lt (post_out e)) h.inv) lt refl refl (ap inside (sym e))
      tt (λ g. cc) h
Move-Leaving n i s _ lt (say_after e) h =
    quiet n i s _ _ (Step-Inv n s _ (step i lt (say_after e)) h.inv) lt refl refl
      (ap inside (sym e)) tt (λ g. cc) h

-- All children have come through acquire_playlock, and none is in release_playlock.
abbrev pub AllInside : ℕ → System → Type 0
AllInside n s = (j : ℕ) → j < n → s.pc j ≡ locks_out

AllInside-Leaving : (n : ℕ) (s : System) → AllInside n s → Inv n s → Fresh n s → Leaving n s
AllInside-Leaving n s all inv fresh = record {
  inv = inv;
  late = λ j lt. subst Late (sym (all j lt)) tt;
  ready = λ some_in. room fresh;
  last = λ j lt e. let f : locks_out ≡ plays_out = sym (all j lt) ∙ e in absurd (cc);
}
  where
    room : Fresh n s → 1 ≤ s.b.playlock
    room (inl one) = one
    room (inr (j, lt, h)) = absurd (subst Past (all j lt) h)

-- If a run comes to a state in which all children have decremented `players` and none has begun to
-- increment it, as `sleep(1)` makes likely, then it does not block after that: until all
-- children have finished, one of them can take a step.
inside_ends :
    (n : ℕ) (s t : System)
    → Reach (Step n) (start n) s
    → AllInside n s
    → Reach (Step n) s t
    → AllFinished n t ⊎ ((u : System) × Step n t u)
inside_ends n s t r all q =
    let (inv, fresh) = reached-Fresh n r in
    let h =
      Reach-keeps (Step n) (Leaving n)
        (λ u v st h. elim st [ step i lt mv ↦ Move-Leaving n i u v lt mv h ])
        (AllInside-Leaving n s all inv fresh) q in
    elim (goes_on n t h.inv) [
      | inl done ↦ inl done
      | inr (inl st) ↦ inr st
      | inr (inr (j, blocked)) ↦ absurd (omega (arith, (h.last j blocked.0 blocked.1).1, blocked.3))
    ]
