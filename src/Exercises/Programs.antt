-- ===== src/Exercises/Programs.antt =====
-- fork-join.c, rendezvous.c and main-signal.c: all that they can print.
use sysprg.Prelude.{◌≡◌, ◌↔◌, inl, inr, refl, some, List, [], ◌∷◌}
use sysprg.Exercises.{
  Line, parent_begin, parent_end, child, before_1, after_1, before_2, after_2, prints_first,
  prints_last, CanPrint, step, act, fork_join, rendezvous, signal,
}
use sysprg.Exercises.Outputs.{OneOf, outputs, outputs_lem}

-- The child's line comes last, between the two of `main`, or not at all.
abbrev pub of_child : List (List Line)
of_child =
    (parent_begin ∷ parent_end ∷ [])
    ∷ (parent_begin ∷ parent_end ∷ child ∷ [])
    ∷ (parent_begin ∷ child ∷ parent_end ∷ [])
    ∷ []

of_fork_join : outputs 7 fork_join ≡ some of_child
unfolding outputs step act fork_join
of_fork_join = refl

of_signal : outputs 7 signal ≡ some ((prints_first ∷ prints_last ∷ []) ∷ [])
unfolding outputs step act signal
of_signal = refl

-- One for each run.
abbrev by_run : List (List Line)
by_run =
    (parent_begin ∷ before_1 ∷ after_1 ∷ before_2 ∷ after_2 ∷ parent_end ∷ [])
    ∷ (parent_begin ∷ before_1 ∷ after_1 ∷ before_2 ∷ after_2 ∷ parent_end ∷ [])
    ∷ (parent_begin ∷ before_1 ∷ after_1 ∷ before_2 ∷ after_2 ∷ parent_end ∷ [])
    ∷ (parent_begin ∷ before_1 ∷ before_2 ∷ after_1 ∷ after_2 ∷ parent_end ∷ [])
    ∷ (parent_begin ∷ before_1 ∷ before_2 ∷ after_1 ∷ after_2 ∷ parent_end ∷ [])
    ∷ (parent_begin ∷ before_1 ∷ before_2 ∷ after_2 ∷ after_1 ∷ parent_end ∷ [])
    ∷ (parent_begin ∷ before_2 ∷ before_1 ∷ after_1 ∷ after_2 ∷ parent_end ∷ [])
    ∷ (parent_begin ∷ before_2 ∷ before_1 ∷ after_1 ∷ after_2 ∷ parent_end ∷ [])
    ∷ (parent_begin ∷ before_2 ∷ before_1 ∷ after_2 ∷ after_1 ∷ parent_end ∷ [])
    ∷ (parent_begin ∷ before_2 ∷ after_2 ∷ before_1 ∷ after_1 ∷ parent_end ∷ [])
    ∷ (parent_begin ∷ before_1 ∷ after_1 ∷ before_2 ∷ after_2 ∷ parent_end ∷ [])
    ∷ (parent_begin ∷ before_1 ∷ after_1 ∷ before_2 ∷ after_2 ∷ parent_end ∷ [])
    ∷ (parent_begin ∷ before_1 ∷ after_1 ∷ before_2 ∷ after_2 ∷ parent_end ∷ [])
    ∷ (parent_begin ∷ before_1 ∷ before_2 ∷ after_1 ∷ after_2 ∷ parent_end ∷ [])
    ∷ (parent_begin ∷ before_1 ∷ before_2 ∷ after_1 ∷ after_2 ∷ parent_end ∷ [])
    ∷ (parent_begin ∷ before_1 ∷ before_2 ∷ after_2 ∷ after_1 ∷ parent_end ∷ [])
    ∷ (parent_begin ∷ before_1 ∷ after_1 ∷ before_2 ∷ after_2 ∷ parent_end ∷ [])
    ∷ (parent_begin ∷ before_1 ∷ after_1 ∷ before_2 ∷ after_2 ∷ parent_end ∷ [])
    ∷ (parent_begin ∷ before_1 ∷ after_1 ∷ before_2 ∷ after_2 ∷ parent_end ∷ [])
    ∷ []

of_rendezvous : outputs 13 rendezvous ≡ some by_run
unfolding outputs step act rendezvous
of_rendezvous = refl

-- The six orders of the four lines in which each child says its two in turn.
abbrev pub orders : List (List Line)
orders =
    (parent_begin ∷ before_1 ∷ after_1 ∷ before_2 ∷ after_2 ∷ parent_end ∷ [])
    ∷ (parent_begin ∷ before_1 ∷ before_2 ∷ after_1 ∷ after_2 ∷ parent_end ∷ [])
    ∷ (parent_begin ∷ before_1 ∷ before_2 ∷ after_2 ∷ after_1 ∷ parent_end ∷ [])
    ∷ (parent_begin ∷ before_2 ∷ before_1 ∷ after_1 ∷ after_2 ∷ parent_end ∷ [])
    ∷ (parent_begin ∷ before_2 ∷ before_1 ∷ after_2 ∷ after_1 ∷ parent_end ∷ [])
    ∷ (parent_begin ∷ before_2 ∷ after_2 ∷ before_1 ∷ after_1 ∷ parent_end ∷ [])
    ∷ []

by_run-orders : (o : List Line) → OneOf o by_run → OneOf o orders
by_run-orders o (inl e) = inl e
by_run-orders o (inr (inl e)) = inl e
by_run-orders o (inr (inr (inl e))) = inl e
by_run-orders o (inr (inr (inr (inl e)))) = inr (inl e)
by_run-orders o (inr (inr (inr (inr (inl e))))) = inr (inl e)
by_run-orders o (inr (inr (inr (inr (inr (inl e)))))) = inr (inr (inl e))
by_run-orders o (inr (inr (inr (inr (inr (inr (inl e))))))) = inr (inr (inr (inl e)))
by_run-orders o (inr (inr (inr (inr (inr (inr (inr (inl e)))))))) = inr (inr (inr (inl e)))
by_run-orders o (inr (inr (inr (inr (inr (inr (inr (inr (inl e))))))))) =
    inr (inr (inr (inr (inl e))))
by_run-orders o (inr (inr (inr (inr (inr (inr (inr (inr (inr (inl e)))))))))) =
    inr (inr (inr (inr (inr (inl e)))))
by_run-orders o (inr (inr (inr (inr (inr (inr (inr (inr (inr (inr (inl e))))))))))) = inl e
by_run-orders o (inr (inr (inr (inr (inr (inr (inr (inr (inr (inr (inr (inl e)))))))))))) = inl e
by_run-orders o (inr (inr (inr (inr (inr (inr (inr (inr (inr (inr (inr (inr (inl e))))))))))))) =
    inl e
by_run-orders o
      (inr (inr (inr (inr (inr (inr (inr (inr (inr (inr (inr (inr (inr (inl e)))))))))))))) =
    inr (inl e)
by_run-orders o
      (inr (inr (inr (inr (inr (inr (inr (inr (inr (inr (inr (inr (inr (inr (inl e))))))))))))))) =
    inr (inl e)
by_run-orders o
      (inr (
        inr
          (inr (inr (inr (inr (inr (inr (inr (inr (inr (inr (inr (inr (inr (inl e)))))))))))))))) =
    inr (inr (inl e))
by_run-orders o
      (inr (
        inr (
          inr (
            inr
              (inr (inr (inr (inr (inr (inr (inr (inr (inr (inr (inr (inr (inl e))))))))))))))))) =
    inl e
by_run-orders o
      (inr (
        inr (
          inr (
            inr (
              inr (
                inr
                  (inr (inr (inr (inr (inr (inr (inr (inr (inr (inr (inr (inl e)))))))))))))))))) =
    inl e
by_run-orders o
      (inr (
        inr (
          inr (
            inr (
              inr (
                inr (
                  inr (
                    inr
                      (inr (inr (inr (inr (inr (inr (inr (inr (inr (inr (inl e))))))))))))))))))) =
    inl e
by_run-orders o
      (inr (
        inr (
          inr (
            inr (
              inr (
                inr (
                  inr (
                    inr
                      (inr (inr (inr (inr (inr (inr (inr (inr (inr (inr (inr h))))))))))))))))))) =
    elim h [ ]

orders-by_run : (o : List Line) → OneOf o orders → OneOf o by_run
orders-by_run o (inl e) = inl e
orders-by_run o (inr (inl e)) = inr (inr (inr (inl e)))
orders-by_run o (inr (inr (inl e))) = inr (inr (inr (inr (inr (inl e)))))
orders-by_run o (inr (inr (inr (inl e)))) = inr (inr (inr (inr (inr (inr (inl e))))))
orders-by_run o (inr (inr (inr (inr (inl e))))) =
    inr (inr (inr (inr (inr (inr (inr (inr (inl e))))))))
orders-by_run o (inr (inr (inr (inr (inr (inl e)))))) =
    inr (inr (inr (inr (inr (inr (inr (inr (inr (inl e)))))))))
orders-by_run o (inr (inr (inr (inr (inr (inr h)))))) = elim h [ ]

-- What is printed when `main` has returned. rendezvous.c: between its two own lines those of the
-- children in any of six orders, also with an "after" before the other "before". fork-join.c: its
-- own two lines, with that of the child between them, after them or not at all. main-signal.c: "first" and
-- then "last", and nothing else.
pub all_outputs :
    (o : List Line)
    → (CanPrint rendezvous o ↔ OneOf o orders)
      × (CanPrint fork_join o ↔ OneOf o of_child)
      × (CanPrint signal o ↔ (o ≡ prints_first ∷ prints_last ∷ []))
all_outputs o =
    let r = outputs_lem 13 rendezvous by_run of_rendezvous o in
    let f = outputs_lem 7 fork_join of_child of_fork_join o in
    let s = outputs_lem 7 signal _ of_signal o in
    (
      (λ c. by_run-orders o (r.1 c), λ m. r.0 (orders-by_run o m)),
      (f.1, f.0),
      (λ c. elim (s.1 c) [ inl e ↦ e | inr none_more ↦ absurd none_more ], λ e. s.0 (inl e)),
    )
