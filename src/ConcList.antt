-- ===== src/ConcList.antt =====
-- concurrency/threads-locks/concllist.h and conchsh.h: the linked list with a lock, and the hash
-- table of such lists.
--
-- Each call holds the lock of its list for what it reads and writes, so calls come in some order. A
-- list is the row of its keys, first to last; whether `malloc` gives a node is an argument. `none` is
-- an access outside the array of the table.
pub mod Table
pub mod Lookup
mod Tests
use sysprg.Prelude.{
  ℕ, zero, suc, ◌+◌, ◌%◌, Bool, true, false, Option, none, some, List, [], ◌∷◌, ◌==◌, if◌then◌else◌,
  get_elem?, set,
}
use sysprg.Prelude.Int.{ℤ, pos, negsuc}

abbrev pub buckets : ℕ
buckets = 101

abbrev pub list_init : List ℤ
list_init = []

-- `List_Insert(L, key)`; `allocated` says whether `malloc` gave a node.
abbrev pub list_insert : Bool → List ℤ → ℤ → List ℤ
list_insert allocated keys key = if allocated then key ∷ keys else keys

-- `curr->key == key`
abbrev pub eq_key : ℤ → ℤ → Bool
eq_key (pos a) (pos b) = a == b
eq_key (negsuc a) (negsuc b) = a == b
eq_key _ _ = false

-- The loop of `List_Lookup`, with `rv` as it stands.
abbrev pub list_lookup_loop : ℤ → List ℤ → ℤ → ℤ
list_lookup_loop rv [] key = rv
list_lookup_loop rv (curr ∷ keys) key =
    let rest = list_lookup_loop rv keys key in if eq_key curr key then pos 0 else rest

abbrev pub list_lookup : List ℤ → ℤ → ℤ
list_lookup keys key = list_lookup_loop (negsuc 0) keys key

-- `hash_t`: the array `lists`, which has `buckets` members.
abbrev pub Hash : Type 0
Hash = List (List ℤ)

-- The loop of `Hash_Init` at `i`, with `n` rounds left.
abbrev pub init_loop : ℕ → ℕ → Hash → Option Hash
init_loop zero i h = some h
init_loop (suc n) i h = elim (get_elem? h i) [
  | none ↦ none
  | some old ↦ init_loop n (i + 1) (set h i list_init)
]

-- `Hash_Init(H)`, whatever `H` holds.
unfoldable pub hash_init : Hash → Option Hash
hash_init h = init_loop buckets 0 h

-- `key % BUCKETS`, which has the sign of the key: a place in the array, or `none` if it is negative.
unfoldable pub place_of : ℤ → Option ℕ
place_of (pos n) = some (n % buckets)
place_of (negsuc n) = if suc n % buckets == 0 then some 0 else none

-- `&H->lists[key % BUCKETS]`: the place and the list there.
unfoldable pub bucket : Hash → ℤ → Option (ℕ × List ℤ)
unfolding place_of
bucket h key = elim (place_of key) [
  | none ↦ none
  | some i ↦ elim (get_elem? h i) [ none ↦ none | some keys ↦ some (i, keys) ]
]

unfoldable pub hash_insert : Bool → Hash → ℤ → Option Hash
unfolding bucket
hash_insert allocated h key = elim (bucket h key) [
  | none ↦ none
  | some (i, keys) ↦ some (set h i (list_insert allocated keys key))
]

unfoldable pub hash_lookup : Hash → ℤ → Option ℤ
unfolding bucket
hash_lookup h key = elim (bucket h key) [
  | none ↦ none
  | some (i, keys) ↦ some (list_lookup keys key)
]

-- A row of insertions, each with whether `malloc` gives a node, and then a lookup.
unfoldable pub calls_then : Hash → List (Bool × ℤ) → ℤ → Option ℤ
unfolding hash_insert hash_lookup
calls_then h [] key = hash_lookup h key
calls_then h ((allocated, k) ∷ calls) key = elim (hash_insert allocated h k) [
  | none ↦ none
  | some t ↦ calls_then t calls key
]

-- All of that on a new table.
unfoldable pub run : Hash → List (Bool × ℤ) → ℤ → Option ℤ
unfolding hash_init calls_then
run h calls key = elim (hash_init h) [ none ↦ none | some t ↦ calls_then t calls key ]
