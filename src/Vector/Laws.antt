-- ===== src/Vector/Laws.antt =====
-- The vector as a stack, and where it stops being one.
use sysprg.Prelude.{
  ℕ, zero, suc, ◌+◌, ◌-◌, ◌≤◌, ◌<◌, ◌≡◌, refl, sym, ◌∙◌, ap, Option, none, some, List, [], ◌∷◌, ltb,
  if◌then◌else◌, get_elem?, set, length, ◌++◌, arith, length-set, length-replicate,
  get_elem?-set_self, get_elem?-set_ne, dec_lt, append_assoc, append-nil, map, length-append,
}
use native.Mathlib.Nat.{add-zero}
use sysprg.Prelude.Int.{ℤ}
use sysprg.Vector.{
  Vector, Result, ok, fault, init_vector, push_vector, pop_vector, print_vector, print_from,
  push_each, realloc,
}

-- The vector holds `xs`: its block has `sz` cells, or `sz + 1` once it was made larger.
pub record Holds (v : Vector) (xs : List ℤ) : Type 0 where
  pub counted : v.nitems ≡ length xs
  pub block : v.sz ≤ length v.elem
  pub room : length xs ≤ length v.elem
  pub small : length v.elem ≤ v.sz + 1
  pub cells : (i : ℕ) → i < length xs → get_elem? v.elem i ≡ some (get_elem? xs i)

length-realloc : (cells : List (Option ℤ)) (n : ℕ) → length (realloc cells n) ≡ n
length-realloc cells zero = refl
length-realloc [] (suc n) = ap suc (length-realloc [] n)
length-realloc (c ∷ cells) (suc n) = ap suc (length-realloc cells n)

get_elem?-realloc :
    (cells : List (Option ℤ)) (n i : ℕ)
    → i < n
    → i < length cells
    → get_elem? (realloc cells n) i ≡ get_elem? cells i
get_elem?-realloc cells zero i h g = elim h [ ]
get_elem?-realloc [] (suc n) i h g = elim g [ ]
get_elem?-realloc (c ∷ cells) (suc n) zero h g = refl
get_elem?-realloc (c ∷ cells) (suc n) (suc i) h g =
    get_elem?-realloc cells n i (omega arith) (omega arith)

get_elem?-append_lt :
    (xs : List ℤ) (x : ℤ) (i : ℕ) → i < length xs → get_elem? (xs ++ x ∷ []) i ≡ get_elem? xs i
get_elem?-append_lt [] x i h = elim h [ ]
get_elem?-append_lt (y ∷ xs) x zero h = refl
get_elem?-append_lt (y ∷ xs) x (suc i) h = get_elem?-append_lt xs x i (omega arith)

get_elem?-append_eq : (xs : List ℤ) (x : ℤ) → get_elem? (xs ++ x ∷ []) (length xs) ≡ some x
get_elem?-append_eq [] x = refl
get_elem?-append_eq (y ∷ xs) x = get_elem?-append_eq xs x

-- The block into which `push_vector` writes.
abbrev grown : Vector → List (Option ℤ)
grown v = if ltb v.sz (v.nitems + 1) then realloc v.elem (v.sz + 1) else v.elem

module _ {v : Vector} {xs : List ℤ} (h : Holds v xs) where
  length-grown : (v.sz ≤ length (grown v)) × (length (grown v) ≤ v.sz + 1)
  length-grown = ground (arith, length-realloc v.elem (v.sz + 1), h.block, h.small)

  fits-grown : length xs ≤ v.sz → length xs < length (grown v)
  fits-grown le = ground (arith, length-realloc v.elem (v.sz + 1), h.counted, h.block)

  cells-grown :
      length xs ≤ v.sz → (i : ℕ) → i < length xs → get_elem? (grown v) i ≡ some (get_elem? xs i)
  cells-grown le i lt =
      ground (arith, get_elem?-realloc v.elem (v.sz + 1) i, h.cells i, h.room, h.counted)

  abbrev pushed : ℤ → Vector
  pushed x = record v { elem = set (grown v) v.nitems (some x); nitems = v.nitems + 1 }

  pushed-cells :
      (x : ℤ)
      → length xs ≤ v.sz
      → (i : ℕ) → i < length (xs ++ x ∷ [])
      → get_elem? (pushed x).elem i ≡ some (get_elem? (xs ++ x ∷ []) i)
  pushed-cells x le i lt = elim (dec_lt i (length xs)) [
    | yes l ↦
        get_elem?-set_ne (grown v) (some x) (omega (arith, h.counted))
        ∙ cells-grown le i l
        ∙ ap some (sym (get_elem?-append_lt xs x i l))
    | no g ↦
        let e : i ≡ length xs = omega (arith, length-append xs (x ∷ [])) in
        ap (get_elem? (pushed x).elem) (e ∙ sym h.counted)
        ∙ get_elem?-set_self (grown v) v.nitems (some x) (omega (arith, fits-grown le, h.counted))
        ∙ ap some (sym (ap (get_elem? (xs ++ x ∷ [])) e ∙ get_elem?-append_eq xs x))
  ]

  push_vector_lem :
      (x : ℤ)
      → length xs ≤ v.sz
      → (push_vector v x ≡ ok (pushed x)) × Holds (pushed x) (xs ++ x ∷ [])
  unfolding push_vector
  push_vector_lem x le = (
    ground (arith, fits-grown le, h.counted),
    record {
      counted = omega (arith, h.counted, length-append xs (x ∷ []));
      block = omega (arith, length-grown, length-set (grown v) v.nitems (some x));
      room =
          omega (
            arith,
            fits-grown le,
            length-set (grown v) v.nitems (some x),
            length-append xs (x ∷ []),
          );
      small = omega (arith, length-grown, length-set (grown v) v.nitems (some x));
      cells = pushed-cells x le;
    },
  )

  push_vector-full : (x : ℤ) → length xs ≡ v.sz + 1 → push_vector v x ≡ fault
  unfolding push_vector
  push_vector-full x e = ground (arith, h.counted, length-realloc v.elem (v.sz + 1))

-- `pop_vector` undoes `push_vector`.
pop_vector_lem :
    {v : Vector} (xs : List ℤ) (x : ℤ)
    → Holds v (xs ++ x ∷ [])
    → (pop_vector v ≡ ok (some x, record v { nitems = v.nitems - 1 }))
      × Holds (record v { nitems = v.nitems - 1 }) xs
unfolding pop_vector
pop_vector_lem {v} xs x h = (
  ground (arith, h.counted, len, last),
  record {
    counted = omega (arith, h.counted, len);
    block = h.block;
    room = omega (arith, h.room, len);
    small = h.small;
    cells = λ i lt. h.cells i (omega (arith, len)) ∙ ap some (get_elem?-append_lt xs x i lt);
  },
)
  where
    len : length (xs ++ x ∷ []) ≡ length xs + 1
    len = length-append xs (x ∷ [])

    last : get_elem? v.elem (v.nitems - 1) ≡ some (some x)
    last =
        ap (get_elem? v.elem) (omega (arith, h.counted, len))
        ∙ h.cells (length xs) (omega (arith, len))
        ∙ ap some (get_elem?-append_eq xs x)

pub init-Holds : (sz : ℕ) → Holds (init_vector sz) []
unfolding init_vector
init-Holds sz = record {
  counted = refl;
  block = omega (arith, length-replicate {A = Option ℤ} sz none);
  room = omega arith;
  small = omega (arith, length-replicate {A = Option ℤ} sz none);
  cells = λ i lt. absurd (omega arith);
}

-- What a row of pushes comes to: a vector that holds them all, if they are at most `sz + 1`.
abbrev pub Pushes : ℕ → List ℤ → Result Vector → Type 0
Pushes sz xs (ok v) = (length xs ≤ sz + 1) × Holds v xs × (v.sz ≡ sz)
Pushes sz xs fault = sz + 1 < length xs

push_each-Pushes :
    (sz : ℕ) (ys xs : List ℤ) (v : Vector)
    → v.sz ≡ sz
    → Holds v xs
    → Pushes sz (xs ++ ys) (push_each v ys)
unfolding push_each
push_each-Pushes sz [] xs v e h = rw append-nil (omega (arith, h.room, h.small), h, e)
push_each-Pushes sz (y ∷ ys) xs v e h = elim (dec_lt v.sz (length xs)) [
  | yes over ↦
      rw (push_vector-full h y (omega (arith, h.room, h.small)), push_each)
        (omega (arith, length-append xs (y ∷ ys), h.room, h.small))
  | no fits ↦
      let (p, h') = push_vector_lem h y (omega arith) in
      rw (p, push_each)
        (rw (append_assoc xs (y ∷ []) ys) at
          (push_each-Pushes sz ys (xs ++ y ∷ []) (pushed h y) e h'))
]

-- From a new vector of size `sz` a row of pushes gives a vector that holds the values in order if
-- they are at most `sz + 1`, and otherwise writes past its block: the size is never updated.
pub push_each-init : (sz : ℕ) (xs : List ℤ) → Pushes sz xs (push_each (init_vector sz) xs)
unfolding init_vector
push_each-init sz xs = push_each-Pushes sz xs [] (init_vector sz) refl (init-Holds sz)

-- If a vector holds `xs` and `push_vector` does not fault, the vector after it holds `x` besides,
-- and a `pop_vector` then returns `x` and leaves a vector that holds `xs`.
pub pop-push :
    (v : Vector) (xs : List ℤ) (x : ℤ)
    → Holds v xs
    → length xs ≤ v.sz
    → (w : Vector) × (u : Vector) × (push_vector v x ≡ ok w)
      × Holds w (xs ++ x ∷ [])
      × (pop_vector w ≡ ok (some x, u))
      × Holds u xs
pop-push v xs x h le =
    let (p, h') = push_vector_lem h x le in
    let (q, h'') = pop_vector_lem xs x h' in (pushed h x, _, p, h', q, h'')

shift_index : (i k : ℕ) → i + 1 + k ≡ i + suc k
shift_index i k = omega arith

print_from_lem :
    (ys : List ℤ) (i : ℕ) (cells : List (Option ℤ))
    → ((k : ℕ) → k < length ys → get_elem? cells (i + k) ≡ some (get_elem? ys k))
    → print_from i (length ys) cells ≡ some (map some ys)
unfolding print_from
print_from_lem [] i cells h = refl
print_from_lem (y ∷ ys) i cells h =
    rw (ap (get_elem? cells) (sym (add-zero i)) ∙ h 0 (omega arith), print_from)
      (rw (
        print_from_lem ys (i + 1) cells
          (λ k lt. ap (get_elem? cells) (shift_index i k) ∙ h (suc k) (omega arith))))

-- `print_vector` prints the values that the vector holds, first to last.
pub print_vector_lem : (v : Vector) (xs : List ℤ) → Holds v xs → print_vector v ≡ some (map some xs)
unfolding print_vector
print_vector_lem v xs h =
    ap (λ n. print_from 0 n v.elem) h.counted
    ∙ print_from_lem xs 0 v.elem (λ k lt. ap (get_elem? v.elem) (omega arith) ∙ h.cells k lt)
