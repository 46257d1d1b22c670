-- ===== src/Cdecl.antt =====
-- cdecl/src/main.c: the stack of tokens and the words that it takes for types.
--
-- The stack is its cells below `head`, last first, so that its length is `head`. An index outside
-- the array of MAXTOKENS cells is a fault: after its message `stackpush` goes on.
pub mod Stack
pub mod Words
mod Tests
use sysprg.Prelude.{
  ℕ, zero, suc, ◌+◌, Bool, true, false, ◌&&◌, ◌||◌, Option, none, some, List, [], ◌∷◌, ◌==◌, leb,
  length, if◌then◌else◌,
}
use sysprg.Prelude.Text.{codes}

abbrev pub maxtokens : ℕ
maxtokens = 128

abbrev pub maxtokenlen : ℕ
maxtokenlen = 64

pub data TokenType : Type 0 where
  type : TokenType
  qualifier : TokenType
  identifier : TokenType
  array : TokenType
  pointer : TokenType
  lparen : TokenType
  rparen : TokenType
  end : TokenType

-- `struct token`, its string up to the NUL
pub record Token : Type 0 where
  pub kind : TokenType
  pub string : List ℕ

pub data Result (A : Type 0) : Type 0 where
  ok : A → Result A
  fault : Result A

-- `stackpush`: with `head >= MAXTOKENS` a message, and then a write past the array.
unfoldable pub stackpush : List Token → Token → Result (List Token)
stackpush stack t = if leb maxtokens (length stack) then fault else ok (t ∷ stack)

-- `stackpop`: with `head == 0` a message, and then a read before the array.
unfoldable pub stackpop : List Token → Result (Token × List Token)
stackpop [] = fault
stackpop (t ∷ stack) = ok (t, stack)

-- `strcmp(a, b) == 0`
pub str_eq : List ℕ → List ℕ → Bool
str_eq [] [] = true
str_eq [] (b ∷ ys) = false
str_eq (a ∷ xs) [] = false
str_eq (a ∷ xs) (b ∷ ys) = let rest = str_eq xs ys in a == b && rest

-- `istype`; its last test is written `strmp`, which is read as `strcmp`.
unfoldable pub istype : List ℕ → Bool
unfolding str_eq
istype str =
    str_eq str (codes "int")
    || (str_eq str (codes "char")
        || (str_eq str (codes "void")
            || (str_eq str (codes "signed")
                || (str_eq str (codes "unsigned")
                    || (str_eq str (codes "short")
                        || (str_eq str (codes "long")
                            || (str_eq str (codes "float") || str_eq str (codes "double"))))))))

pub isqualifier : List ℕ → Bool
isqualifier c = false

-- `classifystring` on the global `this`; `strcpy` has room for 63 bytes and the NUL.
unfoldable pub classifystring : Token → List ℕ → Result Token
unfolding istype isqualifier
classifystring this str =
    if leb maxtokenlen (length str)
    then fault
    else ok (record {
      kind = if isqualifier str then qualifier else if istype str then type else this.kind;
      string = str;
    })

infixl 5 ◌>>=◌
abbrev ◌>>=◌ : {A B : Type 0} → Result A → (A → Result B) → Result B
ok a >>= f = f a
fault >>= f = fault

-- `main`, a test of the stack: the values of `head` that it prints, and the stack that it leaves.
unfoldable pub main : List Token → Result (List ℕ × List Token)
unfolding stackpush stackpop
main stack = do
  s1 ← stackpush stack (record { kind = type; string = codes "int" })
  s2 ← stackpush s1 (record { kind = identifier; string = codes "myint" })
  (t2, s3) ← stackpop s2
  (t1, s4) ← stackpop s3
  ok (length s2 ∷ length s3 ∷ length s4 ∷ [], s4)
