-- ===== src/Exercises/Outputs.antt =====
-- All that a program of printing threads can print, by going through its runs.
use sysprg.Prelude.{
  ℕ, zero, suc, ◌≡◌, refl, sym, ap, ◌∙◌, ◌⊎◌, ◌↔◌, inl, inr, true, false, Bool-cases, Option, none,
  some, List, [], ◌∷◌, ◌++◌, if◌then◌else◌, Option-cases,
}
use mathlib.Core.Path.{subst}
use sysprg.Exercises.{
  Line, Thread, main, first, second, System, ended, act, step, CanPrint, returns, goes,
}

abbrev pub OneOf : List Line → List (List Line) → Type 0
OneOf o [] = ⊥
OneOf o (p ∷ ps) = (o ≡ p) ⊎ OneOf o ps

abbrev both : Option (List (List Line)) → Option (List (List Line)) → Option (List (List Line))
both none ps = none
both (some os) none = none
both (some os) (some ps) = some (os ++ ps)

abbrev after : (System → Option (List (List Line))) → Option System → Option (List (List Line))
after next none = some []
after next (some t) = next t

-- What can be printed from `s` on; `none` if there is a run of more than `n` steps.
unfoldable pub outputs : ℕ → System → Option (List (List Line))
outputs zero s = if ended (s.rest main) then some (s.out ∷ []) else none
outputs (suc n) s =
    let next = outputs n in
    if ended (s.rest main)
    then some (s.out ∷ [])
    else both (after next (step main s))
        (both (after next (step first s)) (after next (step second s)))

OneOf-left : (o : List Line) (ps qs : List (List Line)) → OneOf o ps → OneOf o (ps ++ qs)
OneOf-left o [] qs h = elim h [ ]
OneOf-left o (p ∷ ps) qs (inl e) = inl e
OneOf-left o (p ∷ ps) qs (inr h) = inr (OneOf-left o ps qs h)

OneOf-right : (o : List Line) (ps qs : List (List Line)) → OneOf o qs → OneOf o (ps ++ qs)
OneOf-right o [] qs h = h
OneOf-right o (p ∷ ps) qs h = inr (OneOf-right o ps qs h)

OneOf-append :
    (o : List Line) (ps qs : List (List Line)) → OneOf o (ps ++ qs) → OneOf o ps ⊎ OneOf o qs
OneOf-append o [] qs h = inr h
OneOf-append o (p ∷ ps) qs (inl e) = inl (inl e)
OneOf-append o (p ∷ ps) qs (inr h) = elim (OneOf-append o ps qs h) [
  | inl a ↦ inl (inr a)
  | inr b ↦ inr b
]

-- Two branches, both of them with an end.
both-some :
    (a b : Option (List (List Line))) (os : List (List Line))
    → both a b ≡ some os
    → (ps : List (List Line)) × (qs : List (List Line)) × (a ≡ some ps)
      × (b ≡ some qs)
      × (os ≡ ps ++ qs)
both-some none b os e = cc
both-some (some ps) none os e = cc
both-some (some ps) (some qs) os e = (ps, qs, refl, refl, cc)

-- After a step of thread `i`.
abbrev Continues : System → Thread → List Line → Type 0
Continues s i o = (t : System) × (step i s ≡ some t) × CanPrint t o

branch :
    (next : System → Option (List (List Line)))
    → ((t : System) (os : List (List Line))
        → next t ≡ some os
        → (o : List Line) → OneOf o os ↔ CanPrint t o)
    → (s : System) (i : Thread) (os : List (List Line)) → after next (step i s) ≡ some os
    → (o : List Line) → OneOf o os ↔ Continues s i o
branch next each s i os e o = elim (Option-cases (step i s)) [
  | inl f ↦
      let g : some [] ≡ some os = sym (ap (after next) f) ∙ e in
      let h : [] ≡ os = cc in
      (λ a. absurd (subst (OneOf o) (sym h) a), λ (t, k, c). absurd (nothing t f k))
  | inr (t, f) ↦
      let g : next t ≡ some os = sym (ap (after next) f) ∙ e in
      (
        λ a. (t, f, (each t os g o).0 a),
        λ (u, k, c). (each t os g o).1 (subst (λ v. CanPrint v o) (same t u f k) c),
      )
]
  where
    nothing : (t : System) → step i s ≡ none → step i s ≡ some t → ⊥
    nothing t f k = cc

    same : (t u : System) → step i s ≡ some t → step i s ≡ some u → u ≡ t
    same t u f k = cc

stopped : (s : System) (o : List Line) → CanPrint s o → ended (s.rest main) ≡ true → o ≡ s.out
unfolding step
stopped s _ (returns _ e) f = refl
stopped s o (goes _ t _ i e c) f =
    absurd (nothing (ap (λ b. if b then none else act i (s.rest i) s) f) e)
  where
    nothing : step i s ≡ none → step i s ≡ some t → ⊥
    nothing f k = cc

running :
    (s : System) (o : List Line)
    → CanPrint s o
    → ended (s.rest main) ≡ false
    → Continues s main o ⊎ Continues s first o ⊎ Continues s second o
running s _ (returns _ e) f = absurd (cc)
running s o (goes _ t _ main e c) f = inl (t, e, c)
running s o (goes _ t _ first e c) f = inr (inl (t, e, c))
running s o (goes _ t _ second e c) f = inr (inr (t, e, c))

finished :
    (s : System) (os : List (List Line))
    → ended (s.rest main) ≡ true
    → os ≡ s.out ∷ []
    → (o : List Line) → OneOf o os ↔ CanPrint s o
finished s os e h o = (
  λ a. elim (subst (OneOf o) h a) [
    | inl f ↦ subst (CanPrint s) (sym f) (returns s e)
    | inr none_more ↦ absurd none_more
  ],
  λ c. subst (OneOf o) (sym h) (inl (stopped s o c e)),
)

unended :
    (n : ℕ) (s : System)
    → ended (s.rest main) ≡ false
    → outputs (suc n) s
      ≡ both
          (after (outputs n) (step main s))
          (both (after (outputs n) (step first s)) (after (outputs n) (step second s)))
unfolding outputs
unended n s e = rw e refl

-- If `outputs` has an end for the number of steps, what it lists is what can be printed.
pub outputs_lem :
    (n : ℕ) (s : System) (os : List (List Line))
    → outputs n s ≡ some os
    → (o : List Line) → OneOf o os ↔ CanPrint s o
unfolding outputs
outputs_lem zero s os h o = elim (Bool-cases (ended (s.rest main))) [
  | inl e ↦ let g : some (s.out ∷ []) ≡ some os = sym (rw e refl) ∙ h in finished s os e (cc) o
  | inr e ↦ absurd (clash (sym (rw e refl) ∙ h))
]
  where
    clash : Option.none ≡ some os → ⊥
    clash e = cc
outputs_lem (suc n) s os h o = elim (Bool-cases (ended (s.rest main))) [
  | inl e ↦ let g : some (s.out ∷ []) ≡ some os = sym (rw e refl) ∙ h in finished s os e (cc) o
  | inr e ↦
      let b = branch (outputs n) (outputs_lem n) s in
      let (ps, rest, mains, others, split) = both-some _ _ os (sym (unended n s e) ∙ h) in
      let (qs, rs, firsts, seconds, split') = both-some _ _ rest others in
      (
        λ a. elim (OneOf-append o ps rest (subst (OneOf o) split a)) [
          | inl x ↦ let (t, k, c) = (b main ps mains o).0 x in goes s t o main k c
          | inr y ↦ elim (OneOf-append o qs rs (subst (OneOf o) split' y)) [
            | inl x ↦ let (t, k, c) = (b first qs firsts o).0 x in goes s t o first k c
            | inr x ↦ let (t, k, c) = (b second rs seconds o).0 x in goes s t o second k c
          ]
        ],
        λ c. subst (OneOf o) (sym split) (elim (running s o c e) [
          | inl x ↦ OneOf-left o ps rest ((b main ps mains o).1 x)
          | inr (inl x) ↦
              OneOf-right o ps rest
                (subst (OneOf o) (sym split') (OneOf-left o qs rs ((b first qs firsts o).1 x)))
          | inr (inr x) ↦
              OneOf-right o ps rest
                (subst (OneOf o) (sym split') (OneOf-right o qs rs ((b second rs seconds o).1 x)))
        ]),
      )
]
