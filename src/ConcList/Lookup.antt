-- ===== src/ConcList/Lookup.antt =====
-- concllist.h and conchsh.h: a lookup finds what was inserted, and nothing else.
use sysprg.Prelude.{
  ℕ, ◌≡◌, ◌≢◌, ◌<◌, refl, sym, ap, ◌∙◌, Bool, true, false, ◌⊎◌, inl, inr, Option, none, some, List,
  [], ◌∷◌, arith, length, length-set, get_elem?, set, get_elem?-set_self, get_elem?-set_ne,
  ℕ_discrete,
}
use mathlib.Core.Path.{subst}
use sysprg.Prelude.Int.{ℤ, pos, negsuc}
use sysprg.ConcList.{
  Hash, list_insert, list_lookup, eq_key, hash_insert, hash_lookup, calls_then, run, buckets,
  place_of,
}
use sysprg.ConcList.Table.{
  Fits, Fits-cases, place_of-Fits, place_of-none, slot, New, hash_init-New, bucket-at, bucket-none,
}

-- One of the calls inserted the key.
pub data Inserted (key : ℤ) : List (Bool × ℤ) → Type 0 where
  now : {calls : List (Bool × ℤ)} → Inserted key ((true, key) ∷ calls)
  later :
      {call : Bool × ℤ} {calls : List (Bool × ℤ)} → Inserted key calls → Inserted key (call ∷ calls)

skip_failed :
    {key k : ℤ} {calls : List (Bool × ℤ)} → Inserted key ((false, k) ∷ calls) → Inserted key calls
skip_failed (later i) = i

skip_other :
    {key k : ℤ} {calls : List (Bool × ℤ)}
    → k ≢ key
    → Inserted key ((true, k) ∷ calls)
    → Inserted key calls
skip_other ne now = absurd (ne refl)
skip_other ne (later i) = i

abbrev pub AllFit : List (Bool × ℤ) → Type 0
AllFit [] = Unit
AllFit ((allocated, k) ∷ calls) = Fits k × AllFit calls

-- What the last call is to give: 0 for a key that is there, -1 for one that is not; an access outside
-- the array if a key of one of the calls has a negative remainder.
pub data Told (key : ℤ) (calls : List (Bool × ℤ)) : Option ℤ → Type 0 where
  there : AllFit calls → Fits key → Inserted key calls → Told key calls (some (pos 0))
  absent : AllFit calls → Fits key → ¬ Inserted key calls → Told key calls (some (negsuc 0))
  outside : ¬ (AllFit calls × Fits key) → Told key calls none

eq_key_refl : (a : ℤ) → eq_key a a ≡ true
eq_key_refl (pos a) = ground arith
eq_key_refl (negsuc a) = ground arith

eq_key-ne : (a b : ℤ) → a ≢ b → eq_key a b ≡ false
eq_key-ne (pos a) (pos b) ne = ground (arith, ne)
eq_key-ne (negsuc a) (negsuc b) ne = ground (arith, ne)
eq_key-ne _ _ ne = refl

key-cases : (a b : ℤ) → (a ≡ b) ⊎ (a ≢ b)
key-cases (pos a) (pos b) = elim (ℕ_discrete a b) [
  | yes e ↦ inl (ap pos e)
  | no ne ↦ inr (λ e. ne (cc))
]
key-cases (negsuc a) (negsuc b) = elim (ℕ_discrete a b) [
  | yes e ↦ inl (ap negsuc e)
  | no ne ↦ inr (λ e. ne (cc))
]
key-cases (pos a) (negsuc b) = inr (λ e. cc)
key-cases (negsuc a) (pos b) = inr (λ e. cc)

list_lookup-insert_self :
    (keys : List ℤ) (key : ℤ) → list_lookup (list_insert true keys key) key ≡ pos 0
list_lookup-insert_self keys key = rw (eq_key_refl key) refl

list_lookup-insert_other :
    (allocated : Bool) (keys : List ℤ) (k key : ℤ)
    → (allocated ≡ false) ⊎ (k ≢ key)
    → list_lookup (list_insert allocated keys k) key ≡ list_lookup keys key
list_lookup-insert_other false keys k key h = refl
list_lookup-insert_other true keys k key (inl e) = absurd (cc)
list_lookup-insert_other true keys k key (inr ne) = rw (eq_key-ne k key ne) refl

-- A call with a key that fits.
record Call (allocated : Bool) (h : Hash) (k : ℤ) : Type 0 where
  place : ℕ
  keys : List ℤ
  indexed : place_of k ≡ some place
  was : get_elem? h place ≡ some keys
  result : hash_insert allocated h k ≡ some (set h place (list_insert allocated keys k))
  inside : place < length h

call : (allocated : Bool) (h : Hash) (k : ℤ) → length h ≡ buckets → Fits k → Call allocated h k
unfolding hash_insert
call allocated h k sized fits =
    let (i, lt, e) = place_of-Fits k fits in
    let (keys, f) = slot h i (omega (arith, sized)) in
    record {
      place = i;
      keys = keys;
      indexed = e;
      was = f;
      result = rw (bucket-at h k i keys e f, hash_insert) refl;
      inside = omega (arith, sized);
    }

looked :
    (h : Hash) (key : ℤ) (i : ℕ) (keys : List ℤ)
    → place_of key ≡ some i
    → get_elem? h i ≡ some keys
    → hash_lookup h key ≡ some (list_lookup keys key)
unfolding hash_lookup
looked h key i keys e f = rw (bucket-at h key i keys e f, hash_lookup) refl

module _ {allocated : Bool} {h : Hash} {k : ℤ} (c : Call allocated h k) where
  abbrev table : Hash
  table = set h c.place (list_insert allocated c.keys k)

  here : get_elem? table c.place ≡ some (list_insert allocated c.keys k)
  here = get_elem?-set_self h c.place (list_insert allocated c.keys k) c.inside

  lookup-insert_other :
      (key : ℤ)
      → length h ≡ buckets
      → Fits key
      → (allocated ≡ false) ⊎ (k ≢ key)
      → hash_lookup table key ≡ hash_lookup h key
  lookup-insert_other key sized fits other =
      let (i, lt, e) = place_of-Fits key fits in
      let (keys, f) = slot h i (omega (arith, sized)) in
      elim (ℕ_discrete c.place i) [
        | no ne ↦
            looked table key i keys e (get_elem?-set_ne h (list_insert allocated c.keys k) ne ∙ f)
            ∙ sym (looked h key i keys e f)
        | yes same ↦
            let at : place_of key ≡ some c.place = e ∙ ap some (sym same) in
            looked table key c.place _ at here
            ∙ ap some (list_lookup-insert_other allocated c.keys k key other)
            ∙ sym (looked h key c.place c.keys at c.was)
      ]

lookup-insert_self : {h : Hash} {k : ℤ} (c : Call true h k) → hash_lookup (table c) k ≡ some (pos 0)
lookup-insert_self {k} c =
    looked (table c) k c.place _ c.indexed (here c) ∙ ap some (list_lookup-insert_self c.keys k)

then_calls :
    {allocated : Bool} {h : Hash} {k : ℤ} (c : Call allocated h k) (calls : List (Bool × ℤ))
    (key : ℤ)
    → calls_then h ((allocated, k) ∷ calls) key ≡ calls_then (table c) calls key
unfolding calls_then
then_calls c calls key = rw (c.result, calls_then) refl

module _ (key : ℤ) (fits : Fits key) where
  -- A key that is found stays found.
  calls_then-stays :
      (calls : List (Bool × ℤ)) (h : Hash)
      → length h ≡ buckets
      → AllFit calls
      → hash_lookup h key ≡ some (pos 0)
      → calls_then h calls key ≡ some (pos 0)
  unfolding calls_then
  calls_then-stays [] h sized all e = e
  calls_then-stays ((allocated, k) ∷ calls) h sized (fit, all) e =
      let c = call allocated h k sized fit in
      then_calls c calls key
      ∙ calls_then-stays calls (table c) (length-set h _ _ ∙ sized) all
          (stays allocated c (key-cases k key))
    where
      stays :
          (allocated : Bool) (c : Call allocated h k)
          → (k ≡ key) ⊎ (k ≢ key)
          → hash_lookup (table c) key ≡ some (pos 0)
      stays true c (inl same) =
          subst (λ j. hash_lookup (table c) j ≡ some (pos 0)) same (lookup-insert_self c)
      stays false c (inl same) = lookup-insert_other c key sized fits (inl refl) ∙ e
      stays allocated c (inr ne) = lookup-insert_other c key sized fits (inr ne) ∙ e

  calls_then-new :
      (calls : List (Bool × ℤ)) (h : Hash)
      → length h ≡ buckets
      → AllFit calls
      → hash_lookup h key ≡ some (negsuc 0)
      → (Inserted key calls × (calls_then h calls key ≡ some (pos 0)))
        ⊎ ((¬ Inserted key calls) × (calls_then h calls key ≡ some (negsuc 0)))
  unfolding calls_then
  calls_then-new [] h sized all e = inr ((λ i. elim i [ ]), e)
  calls_then-new ((false, k) ∷ calls) h sized (fit, all) e =
      let c = call false h k sized fit in
      elim (calls_then-new calls (table c) (length-set h _ _ ∙ sized) all
        (lookup-insert_other c key sized fits (inl refl) ∙ e)) [
          | inl (i, r) ↦ inl (later i, then_calls c calls key ∙ r)
          | inr (n, r) ↦ inr ((λ i. n (skip_failed i)), then_calls c calls key ∙ r)
        ]
  calls_then-new ((true, k) ∷ calls) h sized (fit, all) e =
      let c = call true h k sized fit in
      elim (key-cases k key) [
        | inl same ↦ inl (
          subst (λ j. Inserted j ((true, k) ∷ calls)) same now,
          then_calls c calls key
              ∙ calls_then-stays calls (table c) (length-set h _ _ ∙ sized) all
                  (subst (λ j. hash_lookup (table c) j ≡ some (pos 0)) same (lookup-insert_self c)),
        )
        | inr other ↦
            elim (calls_then-new calls (table c) (length-set h _ _ ∙ sized) all
              (lookup-insert_other c key sized fits (inr other) ∙ e)) [
                | inl (i, r) ↦ inl (later i, then_calls c calls key ∙ r)
                | inr (n, r) ↦ inr ((λ i. n (skip_other other i)), then_calls c calls key ∙ r)
              ]
      ]

calls_then-none :
    (calls : List (Bool × ℤ)) (key : ℤ) (h : Hash)
    → length h ≡ buckets
    → ¬ (AllFit calls × Fits key)
    → calls_then h calls key ≡ none
unfolding calls_then hash_lookup hash_insert
calls_then-none [] key h sized n =
    rw (bucket-none h key (place_of-none key (λ f. n (tt, f))), hash_lookup) refl
calls_then-none ((allocated, k) ∷ calls) key h sized n = elim (Fits-cases k) [
  | inl fit ↦
      let c = call allocated h k sized fit in
      then_calls c calls key
      ∙ calls_then-none calls key (table c) (length-set h _ _ ∙ sized)
          (λ (all, f). n ((fit, all), f))
  | inr unfit ↦ rw (bucket-none h k (place_of-none k unfit), hash_insert, calls_then) refl
]

AllFit-cases : (calls : List (Bool × ℤ)) → AllFit calls ⊎ (¬ AllFit calls)
AllFit-cases [] = inl tt
AllFit-cases ((allocated, k) ∷ calls) = elim (Fits-cases k) [
  | inr n ↦ inr (λ (f, all). n f)
  | inl fit ↦ elim (AllFit-cases calls) [
    | inl all ↦ inl (fit, all)
    | inr n ↦ inr (λ (f, all). n all)
  ]
]

calls_then-Told :
    (calls : List (Bool × ℤ)) (key : ℤ) (t : Hash) → New t → Told key calls (calls_then t calls key)
calls_then-Told calls key t new = elim (AllFit-cases calls) [
  | inr n ↦ unfit (λ (all, f). n all)
  | inl all ↦ elim (Fits-cases key) [
    | inr n ↦ unfit (λ (a, f). n f)
    | inl fits ↦
        let (i, lt, e) = place_of-Fits key fits in
        elim (calls_then-new key fits calls t new.sized all
          (looked t key i [] e (new.clear i lt))) [
            | inl (i, r) ↦ subst (Told key calls) (sym r) (there all fits i)
            | inr (n, r) ↦ subst (Told key calls) (sym r) (absent all fits n)
          ]
  ]
]
  where
    unfit : ¬ (AllFit calls × Fits key) → Told key calls (calls_then t calls key)
    unfit n = subst (Told key calls) (sym (calls_then-none calls key t new.sized n)) (outside n)

-- `Hash_Init` on an array of `BUCKETS` lists, whatever they hold, then any row of insertions, and then
-- `Hash_Lookup`. If no key has a negative remainder, the lookup gives 0 for the keys of the insertions
-- for which `malloc` gave a node, and -1 for all other keys. If a key of one of the calls has a
-- negative remainder, as -1 has, a place before the array is used.
pub run-Told :
    (h : Hash) (calls : List (Bool × ℤ)) (key : ℤ)
    → length h ≡ buckets
    → Told key calls (run h calls key)
unfolding run
run-Told h calls key e =
    let (t, f, new) = hash_init-New h e in rw (f, run) (calls_then-Told calls key t new)
