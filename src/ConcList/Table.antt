-- ===== src/ConcList/Table.antt =====
-- conchsh.h: the array of the table.
use sysprg.Prelude.{
  ℕ, zero, suc, ◌+◌, ◌%◌, ◌≤◌, ◌<◌, ◌≡◌, refl, sym, ap, ◌∙◌, ◌⊎◌, inl, inr, none, some, List, [],
  ◌∷◌, get_elem?, set, length, length-set, get_elem?-set_self, get_elem?-set_ne, arith, ℕ_discrete,
}
use sysprg.Prelude.Int.{ℤ, pos, negsuc}
use sysprg.ConcList.{Hash, buckets, init_loop, hash_init, place_of, bucket}

-- A key whose remainder is not negative.
abbrev pub Fits : ℤ → Type 0
Fits (pos n) = Unit
Fits (negsuc n) = suc n % buckets ≡ 0

pub place_of-Fits : (key : ℤ) → Fits key → (i : ℕ) × (i < buckets) × (place_of key ≡ some i)
unfolding place_of
place_of-Fits (pos n) h = (n % buckets, omega arith, refl)
place_of-Fits (negsuc n) h = (0, omega arith, rw h refl)

pub place_of-none : (key : ℤ) → ¬ Fits key → place_of key ≡ none
unfolding place_of
place_of-none (pos n) h = absurd (h tt)
place_of-none (negsuc n) h = ground (arith, h)

pub Fits-cases : (key : ℤ) → Fits key ⊎ (¬ Fits key)
Fits-cases (pos n) = inl tt
Fits-cases (negsuc n) = elim (ℕ_discrete (suc n % buckets) 0) [ yes e ↦ inl e | no ne ↦ inr ne ]

pub slot : {A : Type 0} (xs : List A) (i : ℕ) → i < length xs → (x : A) × (get_elem? xs i ≡ some x)
slot [] i h = elim h [ ]
slot (x ∷ xs) zero h = (x, refl)
slot (x ∷ xs) (suc i) h = slot xs i (omega arith)

-- What the loop of `Hash_Init` leaves.
record Cleared (n i : ℕ) (h t : Hash) : Type 0 where
  same_length : length t ≡ length h
  clear : (j : ℕ) → i ≤ j → j < i + n → get_elem? t j ≡ some []
  others : (j : ℕ) → j < i → get_elem? t j ≡ get_elem? h j

init_loop-Cleared :
    (n i : ℕ) (h : Hash)
    → i + n ≤ length h
    → (t : Hash) × (init_loop n i h ≡ some t) × Cleared n i h t
init_loop-Cleared zero i h le = (
  h,
  refl,
  record { same_length = refl; clear = λ j a b. absurd (omega arith); others = λ j a. refl },
)
init_loop-Cleared (suc n) i h le =
    let (old, e) = slot h i (omega arith) in
    let (t, f, c) = init_loop-Cleared n (i + 1) (set h i []) (omega (arith, length-set h i [])) in
    (
      t,
      rw (e, init_loop) f,
      record {
        same_length = c.same_length ∙ length-set h i [];
        clear = λ j a b. elim (ℕ_discrete i j) [
          | yes same ↦
              c.others j (omega arith)
              ∙ ap (get_elem? (set h i [])) (sym same)
              ∙ get_elem?-set_self h i [] (omega arith)
          | no ne ↦ c.clear j (omega (arith, ne)) (omega arith)
        ];
        others =
            λ j a. c.others j (omega arith) ∙ get_elem?-set_ne h [] (λ same. omega (arith, same));
      },
    )

-- A new table has an empty list at each place.
pub record New (t : Hash) : Type 0 where
  pub sized : length t ≡ buckets
  pub clear : (j : ℕ) → j < buckets → get_elem? t j ≡ some []

pub hash_init-New : (h : Hash) → length h ≡ buckets → (t : Hash) × (hash_init h ≡ some t) × New t
unfolding hash_init
hash_init-New h e =
    let (t, f, c) = init_loop-Cleared buckets 0 h (omega (arith, e)) in
    (
      t,
      f,
      record { sized = c.same_length ∙ e; clear = λ j lt. c.clear j (omega arith) (omega arith) },
    )

pub bucket-at :
    (h : Hash) (key : ℤ) (i : ℕ) (keys : List ℤ)
    → place_of key ≡ some i
    → get_elem? h i ≡ some keys
    → bucket h key ≡ some (i, keys)
unfolding bucket
bucket-at h key i keys e f = rw (e, f, bucket) refl

pub bucket-none : (h : Hash) (key : ℤ) → place_of key ≡ none → bucket h key ≡ none
unfolding bucket
bucket-none h key e = rw (e, bucket) refl
