-- ===== src/Buffer/Queue.antt =====
-- A buffer in use is a bounded first-in first-out queue.
use sysprg.Prelude.{
  ℕ, zero, suc, ◌+◌, ◌-◌, ◌%◌, ◌≤◌, ◌<◌, ◌≡◌, ◌≢◌, refl, sym, ◌∙◌, ap, false, some, List, [], ◌∷◌,
  ◌++◌, arith, get_elem?, get_or, set, replicate, length, length-append, length-set,
  get_elem?-set_self, get_elem?-set_ne, length-replicate, dec_lt, ℕ_discrete,
}
use native.Mathlib.Nat.{mod-add-mod}
use sysprg.Prelude.Int.{ℤ, pos, negsuc}
use sysprg.Buffer.{Shared, Outcome, ok, exits, fault, do_fill, do_get, make_buffer, empty, eq_int}

-- `buffer` holds the queue `q`, its oldest value at `use_ptr`; the other slots hold `EMPTY`.
pub record Represents (s : Shared) (q : List ℤ) : Type 0 where
  pub size : length s.buffer ≡ s.max
  pub use_in : s.use_ptr < s.max
  pub fill_at : s.fill_ptr ≡ (s.use_ptr + s.num_full) % s.max
  pub full : s.num_full ≡ length q
  pub fits : length q ≤ s.max
  pub slot :
      (k : ℕ) → k < s.max → get_elem? s.buffer ((s.use_ptr + k) % s.max) ≡ some (get_or q k empty)
  pub real : (k : ℕ) → k < length q → get_or q k empty ≢ empty

pub eq_int-ne : (a : ℤ) → a ≢ empty → eq_int a empty ≡ false
eq_int-ne (pos n) h = refl
eq_int-ne (negsuc n) h = ground arith

-- Two places less than a round apart are different slots.
apart : (m u j k : ℕ) → u < m → j < m → k < m → j ≢ k → (u + j) % m ≢ (u + k) % m
apart m u j k hu hj hk ne = grind arith

next_slot : (m a n : ℕ) → ((a + n) % m + 1) % m ≡ (a + (n + 1)) % m
next_slot m a n = mod-add-mod (a + n) m 1 ∙ ap (λ j. j % m) (omega arith)

round_slot : (m a : ℕ) → a < m → (a + m) % m ≡ (a + 0) % m
round_slot m a h = grind arith

slot_zero : (m a : ℕ) → a < m → (a + 0) % m ≡ a
slot_zero m a h = grind arith

get_or-past : (q : List ℤ) (k : ℕ) → length q ≤ k → get_or q k empty ≡ empty
get_or-past [] k h = refl
get_or-past (x ∷ q) zero h = absurd (omega arith)
get_or-past (x ∷ q) (suc k) h = get_or-past q k (omega arith)

get_or-append_lt :
    (q : List ℤ) (v : ℤ) (k : ℕ) → k < length q → get_or (q ++ v ∷ []) k empty ≡ get_or q k empty
get_or-append_lt [] v k h = absurd (omega arith)
get_or-append_lt (x ∷ q) v zero h = refl
get_or-append_lt (x ∷ q) v (suc k) h = get_or-append_lt q v k (omega arith)

get_or-append_eq : (q : List ℤ) (v : ℤ) → get_or (q ++ v ∷ []) (length q) empty ≡ v
get_or-append_eq [] v = refl
get_or-append_eq (x ∷ q) v = get_or-append_eq q v

get_or-append_gt :
    (q : List ℤ) (v : ℤ) (k : ℕ) → length q < k → get_or (q ++ v ∷ []) k empty ≡ empty
get_or-append_gt q v k h = get_or-past (q ++ v ∷ []) k (omega (arith, length-append q (v ∷ [])))

module _ {s : Shared} {q : List ℤ} (r : Represents s q) (v : ℤ) where
  -- The buffer that `do_fill` leaves.
  abbrev pub filled : Shared
  filled = record s {
    buffer = set s.buffer s.fill_ptr v;
    fill_ptr = (s.fill_ptr + 1) % s.max;
    num_full = s.num_full + 1;
  }

  fill_ptr-lt : s.fill_ptr < length s.buffer
  fill_ptr-lt = omega (arith, r.fill_at, r.use_in, r.size)

  filled-slot :
      length q < s.max
      → (k : ℕ) → k < s.max
      → get_elem? filled.buffer ((s.use_ptr + k) % s.max) ≡ some (get_or (q ++ v ∷ []) k empty)
  filled-slot lt k hk = elim (ℕ_discrete k (length q)) [
    | yes e ↦
        ap (λ i. get_elem? filled.buffer i)
          (ap (λ j. (s.use_ptr + j) % s.max) (e ∙ sym r.full) ∙ sym r.fill_at)
        ∙ get_elem?-set_self s.buffer s.fill_ptr v fill_ptr-lt
        ∙ ap some (sym (ap (λ j. get_or (q ++ v ∷ []) j empty) e ∙ get_or-append_eq q v))
    | no ne ↦
        get_elem?-set_ne s.buffer v (λ e.
          apart s.max s.use_ptr (length q) k r.use_in lt hk (λ e'. ne (sym e'))
            (ap (λ j. (s.use_ptr + j) % s.max) (sym r.full) ∙ sym r.fill_at ∙ e))
        ∙ r.slot k hk
        ∙ ap some (elim (dec_lt k (length q)) [
          | yes l ↦ sym (get_or-append_lt q v k l)
          | no g ↦ get_or-past q k (omega arith) ∙ sym (get_or-append_gt q v k (omega arith))
        ])
  ]

  filled-real :
      v ≢ empty → (k : ℕ) → k < length (q ++ v ∷ []) → get_or (q ++ v ∷ []) k empty ≢ empty
  filled-real ne k hk = elim (dec_lt k (length q)) [
    | yes l ↦ rw (get_or-append_lt q v k l) (r.real k l)
    | no g ↦
        let e : k ≡ length q = omega (arith, length-append q (v ∷ [])) in
        rw e (rw (get_or-append_eq q v) ne)
  ]

  -- `do_fill` of a real value appends it to the queue while there is room.
  pub do_fill_lem :
      length q < s.max → v ≢ empty → (do_fill v s ≡ ok filled) × Represents filled (q ++ v ∷ [])
  unfolding do_fill
  do_fill_lem lt ne = (
    rw (at_fill, do_fill),
    record {
      size = length-set s.buffer s.fill_ptr v ∙ r.size;
      use_in = r.use_in;
      fill_at = ap (λ j. (j + 1) % s.max) r.fill_at ∙ next_slot s.max s.use_ptr s.num_full;
      full = omega (arith, r.full, length-append q (v ∷ []));
      fits = omega (arith, length-append q (v ∷ []));
      slot = filled-slot lt;
      real = filled-real ne;
    },
  )
    where
      at_fill : get_elem? s.buffer s.fill_ptr ≡ some empty
      at_fill =
          ap (get_elem? s.buffer) (r.fill_at ∙ ap (λ j. (s.use_ptr + j) % s.max) r.full)
          ∙ r.slot (length q) lt
          ∙ ap some (get_or-past q (length q) (omega arith))

  -- On a full buffer it ends the process: the slot is not `EMPTY`.
  pub do_fill-full : length q ≡ s.max → do_fill v s ≡ exits
  unfolding do_fill
  do_fill-full e =
      rw (at_fill, do_fill) (rw (eq_int-ne (get_or q 0 empty) (r.real 0 (omega (arith, r.use_in)))))
    where
      at_fill : get_elem? s.buffer s.fill_ptr ≡ some (get_or q 0 empty)
      at_fill =
          ap (get_elem? s.buffer) (
            r.fill_at
            ∙ ap (λ j. (s.use_ptr + j) % s.max) (r.full ∙ e)
            ∙ round_slot s.max s.use_ptr r.use_in)
          ∙ r.slot 0 (omega (arith, r.use_in))

module _ {s : Shared} {v : ℤ} {q : List ℤ} (r : Represents s (v ∷ q)) where
  -- The buffer that `do_get` leaves.
  abbrev pub taken : Shared
  taken = record s {
    buffer = set s.buffer s.use_ptr empty;
    use_ptr = (s.use_ptr + 1) % s.max;
    num_full = s.num_full - 1;
  }

  here : (s.use_ptr + 0) % s.max ≡ s.use_ptr
  here = slot_zero s.max s.use_ptr r.use_in

  shift : (k : ℕ) → (taken.use_ptr + k) % s.max ≡ (s.use_ptr + suc k) % s.max
  shift k = mod-add-mod (s.use_ptr + 1) s.max k ∙ ap (λ j. j % s.max) (omega arith)

  taken-slot :
      (k : ℕ)
      → k < s.max
      → get_elem? taken.buffer ((taken.use_ptr + k) % s.max) ≡ some (get_or q k empty)
  taken-slot k hk = elim (dec_lt (suc k) s.max) [
    | yes l ↦
        ap (get_elem? taken.buffer) (shift k)
        ∙ get_elem?-set_ne s.buffer empty
            (λ e. apart s.max s.use_ptr 0 (suc k) r.use_in (omega arith) l (omega arith) (here ∙ e))
        ∙ r.slot (suc k) l
    | no g ↦
        ap (get_elem? taken.buffer) (
          shift k
          ∙ ap (λ j. (s.use_ptr + j) % s.max) (omega arith)
          ∙ round_slot s.max s.use_ptr r.use_in
          ∙ here)
        ∙ get_elem?-set_self s.buffer s.use_ptr empty (omega (arith, r.size, r.use_in))
        ∙ ap some (sym (get_or-past q k (omega (arith, r.fits))))
  ]

  -- `do_get` takes the oldest value off the queue.
  pub do_get_lem : (do_get s ≡ ok (v, taken)) × Represents taken q
  unfolding do_get
  do_get_lem = (
    rw (at_use, do_get) (rw (eq_int-ne v (r.real 0 (omega arith)))),
    record {
      size = length-set s.buffer s.use_ptr empty ∙ r.size;
      use_in = omega (arith, r.use_in);
      fill_at =
          r.fill_at
          ∙ ap (λ j. (s.use_ptr + j) % s.max) (omega (arith, r.full))
          ∙ sym (shift (s.num_full - 1));
      full = omega (arith, r.full);
      fits = omega (arith, r.fits);
      slot = taken-slot;
      real = λ k hk. r.real (suc k) (omega arith);
    },
  )
    where
      at_use : get_elem? s.buffer s.use_ptr ≡ some v
      at_use = ap (get_elem? s.buffer) (sym here) ∙ r.slot 0 (omega (arith, r.use_in))

-- On an empty buffer `do_get` ends the process.
pub do_get-empty : {s : Shared} → Represents s [] → do_get s ≡ exits
unfolding do_get
do_get-empty {s} r = rw (at_use, do_get)
  where
    at_use : get_elem? s.buffer s.use_ptr ≡ some empty
    at_use =
        ap (get_elem? s.buffer) (sym (slot_zero s.max s.use_ptr r.use_in))
        ∙ r.slot 0 (omega (arith, r.use_in))

get_elem?-replicate : (n k : ℕ) → k < n → get_elem? (replicate n empty) k ≡ some empty
get_elem?-replicate zero k h = elim h [ ]
get_elem?-replicate (suc n) zero h = refl
get_elem?-replicate (suc n) (suc k) h = get_elem?-replicate n k (omega arith)

-- `main` starts with the empty queue.
pub make_buffer-Represents : (max : ℕ) → 0 < max → Represents (make_buffer max) []
unfolding make_buffer
make_buffer-Represents max h = record {
  size = length-replicate max empty;
  use_in = h;
  fill_at = omega arith;
  full = refl;
  fits = omega arith;
  slot = λ k hk. get_elem?-replicate max ((0 + k) % max) (omega arith);
  real = λ k hk. absurd (omega arith);
}

-- The calls, over the queue: a full queue takes no value and an empty one has none to give, and
-- then the process ends.
abbrev pub Fills : ℕ → ℤ → List ℤ → Outcome Shared → Type 0
Fills max v q (ok t) = (length q < max) × Represents t (q ++ v ∷ []) × (t.max ≡ max)
Fills max v q exits = length q ≡ max
Fills max v q fault = ⊥

abbrev pub Gets : ℕ → List ℤ → Outcome (ℤ × Shared) → Type 0
Gets max [] (ok (v, t)) = ⊥
Gets max (x ∷ q) (ok (v, t)) = (v ≡ x) × Represents t q × (t.max ≡ max)
Gets max [] exits = Unit
Gets max (x ∷ q) exits = ⊥
Gets max q fault = ⊥

-- `do_fill` of a value other than `EMPTY` appends it to the queue if there is room, and otherwise
-- ends the process; it never goes out of range.
pub do_fill-Fills :
    {s : Shared} {q : List ℤ} (v : ℤ) → v ≢ empty → Represents s q → Fills s.max v q (do_fill v s)
do_fill-Fills {s} {q} v ne r = elim (dec_lt (length q) s.max) [
  | yes lt ↦ let (e, rep) = do_fill_lem r v lt ne in rw e (lt, rep, refl)
  | no ge ↦ let e : length q ≡ s.max = omega (arith, r.fits) in rw (do_fill-full r v e) e
]

-- `do_get` takes the oldest value off the queue if there is one, and otherwise ends the process.
pub do_get-Gets : {s : Shared} (q : List ℤ) → Represents s q → Gets s.max q (do_get s)
do_get-Gets [] r = rw (do_get-empty r) tt
do_get-Gets (v ∷ q) r = let (e, rep) = do_get_lem r in rw e (refl, rep, refl)
