-- ===== src/Cdecl/Tests.antt =====
-- cdecl on two tokens.
use sysprg.Prelude.{[], ◌∷◌, arith}
use sysprg.Prelude.Text.{codes}
use sysprg.Cdecl.{Token, type, identifier}
use sysprg.Cdecl.Stack.{Pushed, push_each, push_each-Pushed}

abbrev fun : Token
fun = record { kind = type; string = codes "int" }

abbrev name : Token
name = record { kind = identifier; string = codes "myint" }

two_tokens : Pushed [] (fun ∷ name ∷ []) (push_each [] (fun ∷ name ∷ []))
two_tokens = push_each-Pushed (fun ∷ name ∷ []) [] (omega arith)
