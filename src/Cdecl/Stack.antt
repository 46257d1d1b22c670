-- ===== src/Cdecl/Stack.antt =====
-- cdecl's stack: what is pushed comes out again, last in first out, as long as there is room.
use sysprg.Prelude.{
  ℕ, suc, ◌+◌, ◌≤◌, ◌<◌, ◌≡◌, refl, sym, List, [], ◌∷◌, arith, length, dec_lt, leb, true, false,
}
use mathlib.Core.Path.{subst}
use sysprg.Prelude.Text.{codes}
use sysprg.Cdecl.{Token, Result, ok, fault, stackpush, stackpop, maxtokens, main, type, identifier}

-- A row of pushes, and `n` pops with the tokens they give.
abbrev pub push_each : List Token → List Token → Result (List Token)
push_each stack [] = ok stack
push_each stack (t ∷ ts) = elim (stackpush stack t) [
  | fault ↦ fault
  | ok stack' ↦ push_each stack' ts
]

abbrev pub reverse_onto : List Token → List Token → List Token
reverse_onto acc [] = acc
reverse_onto acc (t ∷ ts) = reverse_onto (t ∷ acc) ts

leb_lt : (a b : ℕ) → b < a → leb a b ≡ false
leb_lt a b h = ground arith

le_leb : (a b : ℕ) → a ≤ b → leb a b ≡ true
le_leb a b h = ground arith

stackpush-room :
    (stack : List Token) (t : Token) → length stack < maxtokens → stackpush stack t ≡ ok (t ∷ stack)
unfolding stackpush
stackpush-room stack t h = rw (leb_lt 128 (length stack) h) refl

stackpush-full :
    (stack : List Token) (t : Token) → maxtokens ≤ length stack → stackpush stack t ≡ fault
unfolding stackpush
stackpush-full stack t h = rw (le_leb 128 (length stack) h) refl

push_each-room :
    (stack : List Token) (t : Token) (ts : List Token)
    → length stack < maxtokens
    → push_each stack (t ∷ ts) ≡ push_each (t ∷ stack) ts
push_each-room stack t ts h = rw (push_each, stackpush-room stack t h) refl

push_each-full :
    (stack : List Token) (t : Token) (ts : List Token)
    → maxtokens ≤ length stack
    → push_each stack (t ∷ ts) ≡ fault
push_each-full stack t ts h = rw (push_each, stackpush-full stack t h) refl

-- What a row of pushes comes to.
abbrev pub Pushed : List Token → List Token → Result (List Token) → Type 0
Pushed stack ts (ok stack') =
    (length stack + length ts ≤ maxtokens) × (stack' ≡ reverse_onto stack ts)
Pushed stack ts fault = maxtokens < length stack + length ts

-- On a stack of at most 128 tokens a row of `stackpush`es gives the stack with the tokens on it, the
-- last on top, if there are then at most 128; otherwise one of them writes past the array.
pub push_each-Pushed :
    (ts stack : List Token) → length stack ≤ maxtokens → Pushed stack ts (push_each stack ts)
push_each-Pushed [] stack h = (omega arith, refl)
push_each-Pushed (t ∷ ts) stack h = elim (dec_lt (length stack) 128) [
  | yes room ↦
      subst (Pushed stack (t ∷ ts)) (sym (push_each-room stack t ts room))
        (more (push_each (t ∷ stack) ts) (push_each-Pushed ts (t ∷ stack) room))
  | no full ↦
      subst (Pushed stack (t ∷ ts)) (sym (push_each-full stack t ts (omega arith))) (omega arith)
]
  where
    more : (r : Result (List Token)) → Pushed (t ∷ stack) ts r → Pushed stack (t ∷ ts) r
    more (ok stack') (le, e) = (omega arith, e)
    more fault lt = omega arith

-- With room for one token more, `stackpop` after `stackpush` gives the token and the stack as it was;
-- on an empty stack `stackpop` reads before the array.
pub stackpop-stackpush :
    (stack : List Token) (t : Token)
    → length stack < maxtokens
    → ((pushed : List Token) × (stackpush stack t ≡ ok pushed) × (stackpop pushed ≡ ok (t, stack)))
      × (stackpop [] ≡ fault)
unfolding stackpop
stackpop-stackpush stack t h = ((t ∷ stack, stackpush-room stack t h, refl), refl)

-- From a stack with room for two tokens `main` prints its size with both, with one and with none of
-- them, and leaves it as it was.
pub main_lem :
    (stack : List Token)
    → length stack + 2 ≤ maxtokens
    → main stack ≡ ok (suc (suc (length stack)) ∷ suc (length stack) ∷ length stack ∷ [], stack)
unfolding main
main_lem stack h =
    rw
      (
        stackpush-room stack (record { kind = type; string = codes "int" }) (omega arith),
        stackpush-room (record { kind = type; string = codes "int" } ∷ stack)
            (record { kind = identifier; string = codes "myint" }) (omega arith),
      )
      refl
