-- ===== src/NoLock/Invariant.antt =====
-- vector-nolock.c: what has been added to each slot so far.
use native.Mathlib.Nat.{mod-add-mod}
use mathlib.Core.Logic.{if_pos, if_neg}
use sysprg.Prelude.{
  ◌⊎◌, inl, inr, ℕ, ◌+◌, ◌%◌, ◌^◌, ◌≤◌, ◌<◌, ◌≡◌, ◌≢◌, refl, sym, ap, ◌∙◌, ltb_ge, lt→ltb, ==-eq,
  ==-ne, length, length-set, length-replicate, get_or, update, update_self, ℕ_discrete, dec_lt,
  arith,
}
use sysprg.Prelude.Sums.{sum}
use sysprg.VectorAdd.{vector_size, vector_init, Config}
use sysprg.VectorAdd.Values.{stored_other, get_or-set_self}
use sysprg.NoLock.{
  fetch_and_add, Pc, at, adding, System, start, dst, src, Step, reads, adds, returns,
}
use sysprg.NoLock.Shares.{
  times, sum_zero, get_or-replicate, share, share-update, share_elsewhere, share_here,
}

module _ (cfg : Config) where
  abbrev pub Place : ℕ → Pc → Type 0
  Place j (at r i) = (i ≤ vector_size) × ((r < cfg.loops) ⊎ ((r ≡ cfg.loops) × (i ≡ 0)))
  Place j (adding r i value) = (i < vector_size) × (r < cfg.loops) × (value ≡ src cfg j)

  -- No thread writes where another reads.
  pub record IsApart : Type 0 where
    pub apart : (j l : ℕ) → j < cfg.num_threads → l < cfg.num_threads → dst cfg l ≢ src cfg j
    pub small : (j : ℕ) → j < cfg.num_threads → src cfg j < 200

  pub record Inv (s : System) : Type 0 where
    pub size : (x : ℕ) → length (s.values x) ≡ vector_size
    pub exact :
        (x k : ℕ)
        → x < 200
        → k < vector_size
        → get_or (s.values x) k 0 ≡ (x + sum cfg.num_threads (share cfg s.pc x k)) % 2 ^ 32
    pub place : (j : ℕ) → Place j (s.pc j)

  Place-update :
      (pc : ℕ → Pc) (j : ℕ) (p : Pc)
      → ((l : ℕ) → Place l (pc l))
      → Place j p
      → (l : ℕ) → Place l (update pc j p l)
  Place-update pc j p all new l = elim (ℕ_discrete j l) [
    | yes e ↦ rw (if_pos (ℕ_discrete j l) e, sym e) new
    | no ne ↦ rw (if_neg (ℕ_discrete j l) ne) (all l)
  ]

  -- The sources keep their values.
  source_same :
      {s : System}
      → IsApart
      → Inv s
      → (j i : ℕ) → j < cfg.num_threads
      → i < vector_size
      → get_or (s.values (src cfg j)) i 0 ≡ src cfg j
  source_same {s} a inv j i lt h =
      let none_added =
        sum_zero cfg.num_threads (share cfg s.pc (src cfg j) i)
          (λ l ltl. rw (==-ne _ _ (a.apart j l lt ltl)) refl) in
      omega (arith, inv.exact (src cfg j) i (a.small j lt) h, none_added, a.small j lt)

  module _ {s : System} (a : IsApart) (inv : Inv s) where
    reads-Inv :
        (j r i : ℕ)
        → j < cfg.num_threads
        → s.pc j ≡ at r i
        → r < cfg.loops
        → i < vector_size
        → Inv (record s { pc = update s.pc j (adding r i (get_or (s.values (src cfg j)) i 0)) })
    reads-Inv j r i lt e more h = record {
      size = inv.size;
      exact = λ x k xs ks.
          rw
            (share-update cfg s.pc j (adding r i (get_or (s.values (src cfg j)) i 0)) x k
              (rw (e) refl))
            (inv.exact x k xs ks);
      place = Place-update s.pc j _ inv.place (h, more, source_same a inv j i lt h);
    }

    next_call : (j r : ℕ) → Place j (at r vector_size) → Place j (at (r + 1) 0)
    next_call j r (h, inl lt) = elim (dec_lt (r + 1) cfg.loops) [
      | yes more ↦ (omega arith, inl more)
      | no last ↦ (omega arith, inr (omega arith, refl))
    ]
    next_call j r (h, inr (e, f)) = absurd (omega (arith, f))

    returns-Inv :
        (j r : ℕ) → s.pc j ≡ at r vector_size → Inv (record s { pc = update s.pc j (at (r + 1) 0) })
    returns-Inv j r e = record {
      size = inv.size;
      exact = λ x k xs ks.
          rw
            (share-update cfg s.pc j (at (r + 1) 0) x k
              (rw (e, lt→ltb k vector_size ks, ltb_ge k 0 (omega arith)) (omega arith)))
            (inv.exact x k xs ks);
      place = Place-update s.pc j _ inv.place (next_call j r (rw e at (inv.place j)));
    }

    adds_here :
        (j r i value : ℕ)
        → j < cfg.num_threads
        → s.pc j ≡ adding r i value
        → value ≡ src cfg j
        → i < vector_size
        → dst cfg j < 200
        → get_or ((fetch_and_add s.values (dst cfg j) i value).1 (dst cfg j)) i 0
          ≡ (dst cfg j
              + sum cfg.num_threads (share cfg (update s.pc j (at r (i + 1))) (dst cfg j) i))
            % 2 ^ 32
    adds_here j r i value lt e same h small =
        let d = dst cfg j in
        let total = sum cfg.num_threads (share cfg s.pc d i) in
        let room : i < length (s.values d) = omega (arith, inv.size d) in
        ap (λ xs. get_or xs i 0) (update_self s.values d)
        ∙ get_or-set_self (s.values d) i ((get_or (s.values d) i 0 + value) % 2 ^ 32) room
        ∙ ap (λ y. (y + value) % 2 ^ 32) (inv.exact d i small h)
        ∙ mod-add-mod (d + total) (2 ^ 32) value
        ∙ ap (λ y. y % 2 ^ 32) (omega (arith, share_here cfg s.pc j r i value lt e, same))

    times_other :
        (j r i value k : ℕ)
        → s.pc j ≡ adding r i value
        → k ≢ i
        → times (at r (i + 1)) k ≡ times (s.pc j) k
    times_other j r i value k e ne = rw (e) (ground arith)

    adds-Inv :
        (j r i value : ℕ)
        → j < cfg.num_threads
        → s.pc j ≡ adding r i value
        → Inv (record {
          values = (fetch_and_add s.values (dst cfg j) i value).1;
          pc = update s.pc j (at r (i + 1));
        })
    adds-Inv j r i value lt e = record {
      size = λ x. elim (ℕ_discrete (dst cfg j) x) [
        | yes f ↦
            rw (if_pos (ℕ_discrete (dst cfg j) x) f)
              (length-set (s.values (dst cfg j)) i _ ∙ inv.size (dst cfg j))
        | no ne ↦ rw (if_neg (ℕ_discrete (dst cfg j) x) ne) (inv.size x)
      ];
      exact = λ x k xs ks. elim (ℕ_discrete x (dst cfg j)) [
        | yes f ↦ elim (ℕ_discrete k i) [
          | yes g ↦ rw (f, g) (adds_here j r i value lt e here.2 here.0 (omega (arith, xs, f)))
          | no ne ↦
              stored_other s.values (dst cfg j) i _ x k (inr (λ g. ne (sym g)))
              ∙ inv.exact x k xs ks
              ∙ ap (λ y. (x + y) % 2 ^ 32)
                  (sym
                    (share-update cfg s.pc j (at r (i + 1)) x k (times_other j r i value k e ne)))
        ]
        | no ne ↦
            stored_other s.values (dst cfg j) i _ x k (inl ne)
            ∙ inv.exact x k xs ks
            ∙ ap (λ y. (x + y) % 2 ^ 32)
                (sym (share_elsewhere cfg s.pc j (at r (i + 1)) x k (λ f. ne (sym f))))
      ];
      place = Place-update s.pc j _ inv.place (omega (arith, here.0), inl here.1);
    }
      where
        here : Place j (adding r i value)
        here = rw e at (inv.place j)

  pub Step-Inv : IsApart → (s t : System) → Step cfg s t → Inv s → Inv t
  Step-Inv a s _ (reads j r i lt e more h) inv = reads-Inv a inv j r i lt e more h
  Step-Inv a s _ (adds j r i value lt e) inv = adds-Inv a inv j r i value lt e
  Step-Inv a s _ (returns j r lt e) inv = returns-Inv a inv j r e

  none_yet : (x k j : ℕ) → share cfg start.pc x k j ≡ 0
  none_yet x k j = elim (ℕ_discrete (dst cfg j) x) [
    | yes e ↦ rw (==-eq _ _ e, ltb_ge k 0 (omega arith)) (omega arith)
    | no ne ↦ rw (==-ne _ _ ne) refl
  ]

  first_call : (j : ℕ) → Place j (at 0 0)
  first_call j = elim (dec_lt 0 cfg.loops) [
    | yes lt ↦ (omega arith, inl lt)
    | no ge ↦ (omega arith, inr (omega arith, refl))
  ]

  pub start-Inv : Inv start
  unfolding vector_init
  start-Inv = record {
    size = λ x. length-replicate vector_size x;
    exact = λ x k xs ks.
        let none = sum_zero cfg.num_threads (share cfg start.pc x k) (λ j lt. none_yet x k j) in
        get_or-replicate vector_size k x ks ∙ omega (arith, none);
    place = first_call;
  }
