-- ===== src/Fork/Orders.antt =====
-- process_api: a parent that does not wait for its child.
use mathlib.Core.Path.{subst}
use sysprg.Prelude.{
  ℕ, ◌↔◌, ◌≡◌, refl, sym, ap, ◌∙◌, ◌⊎◌, inl, inr, Option, List, [], ◌∷◌, ◌++◌, append_assoc,
  append-nil,
}
use sysprg.Prelude.Reach.{Reach, here, next, Reach-keeps}
use sysprg.Fork.{Line, Action, say, wait, exec, close_stdout, open_file, fork, Row, end, ◌⨾◌}
use sysprg.Fork.Printed.{Own-end, Own-fork}
use sysprg.Fork.Systems.{
  screen, Process, System, start, say_all, Own, does_say, does_exec, does_close, does_open, Step,
  by_parent, by_child, waits, forks, fork_fails,
}

-- The lines of the child and of the parent, put together in some order.
pub data Shuffle : List Line → List Line → List Line → Type 0 where
  none_left : Shuffle [] [] []
  from_child : (l : Line) (xs ys zs : List Line) → Shuffle xs ys zs → Shuffle (l ∷ xs) ys (l ∷ zs)
  from_parent : (l : Line) (xs ys zs : List Line) → Shuffle xs ys zs → Shuffle xs (l ∷ ys) (l ∷ zs)

parent_only : (ls : List Line) → Shuffle [] ls ls
parent_only [] = none_left
parent_only (l ∷ ls) = from_parent l [] ls ls (parent_only ls)

module _ (execvp : List (List ℕ) → Option (List Line)) where
  -- What can be on the screen when both have ended.
  abbrev pub Shows : Row → List Line → Type 0
  Shows program zs =
      (s : System) × Reach (Step execvp) (start program) s
      × (s.parent.rest ≡ end)
      × (s.child.rest ≡ end)
      × (s.shown ≡ zs)

  -- A process that only prints, on the screen.
  record Says (pr : Process) (ls : List Line) : Type 0 where
    on_screen : pr.stdout ≡ screen
    to_say : pr.rest ≡ say_all ls

  -- What it does next is to print.
  only_say :
      (pr : Process) (ls : List Line) (a : Action) (k : Row)
      → Says pr ls
      → pr.rest ≡ a ⨾ k
      → (l : Line) × (a ≡ say l)
  only_say pr [] a k h e = let f : end ≡ a ⨾ k = sym h.to_say ∙ e in absurd (cc)
  only_say pr (l ∷ ls) a k h e = let f : say l ⨾ say_all ls ≡ a ⨾ k = sym h.to_say ∙ e in (l, cc)

  not_say :
      (pr : Process) (ls : List Line) (a : Action) (k : Row)
      → Says pr ls
      → pr.rest ≡ a ⨾ k
      → ((l : Line) → a ≡ say l → ⊥)
      → ⊥
  not_say pr ls a k h e other = other (only_say pr ls a k h e).0 (only_say pr ls a k h e).1

  Own-Says :
      (pr pr' : Process) (ls a b : List Line)
      → Says pr ls
      → Own execvp pr a b pr'
      → (l : Line) × (k : List Line) × (ls ≡ l ∷ k) × (a ≡ l ∷ []) × Says pr' k
  Own-Says pr pr' [] a b h (does_say l k e) = absurd (let f = h.to_say in cc)
  Own-Says pr pr' (m ∷ ls) a b h (does_say l k e) =
      let f : say m ⨾ say_all ls ≡ say l ⨾ k = sym h.to_say ∙ e in
      (
        m,
        ls,
        refl,
        rw (h.on_screen) (let same : l ≡ m = cc in rw same refl),
        record { on_screen = h.on_screen; to_say = cc },
      )
  Own-Says pr pr' ls a b h (does_exec command k e) =
      absurd (not_say pr ls (exec command) k h e (λ l f. cc))
  Own-Says pr pr' ls a b h (does_close k e) = absurd (not_say pr ls close_stdout k h e (λ l f. cc))
  Own-Says pr pr' ls a b h (does_open k e) = absurd (not_say pr ls open_file k h e (λ l f. cc))

  put_after : (out a ws : List Line) (l : Line) → a ≡ l ∷ [] → (out ++ a) ++ ws ≡ out ++ (l ∷ ws)
  put_after out a ws l e = ap (λ q. (out ++ q) ++ ws) e ∙ append_assoc out (l ∷ []) ws

  module _ (xs ys fs : List Line) where
    abbrev pub row : Row
    row = fork (say_all xs) (say_all fs) ⨾ say_all ys

    data Phase (s : System) : Type 0 where
      unforked :
          s.parent.rest ≡ row
          → s.parent.stdout ≡ screen
          → s.child.rest ≡ end
          → s.shown ≡ []
          → Phase s
      forked :
          (cs ps : List Line)
          → Says s.child cs
          → Says s.parent ps
          → ((ws : List Line) → Shuffle cs ps ws → Shuffle xs ys (s.shown ++ ws))
          → Phase s
      failed :
          (ps : List Line) → s.child.rest ≡ end → Says s.parent ps → s.shown ++ ps ≡ fs → Phase s

    Step-Phase : (s t : System) → Step execvp s t → Phase s → Phase t
    Step-Phase s _ (by_parent a b pr st) (unforked h o ce sh) =
        absurd (Own-fork execvp s.parent pr a b _ _ _ h st)
    Step-Phase s _ (by_parent a b pr st) (forked cs ps hc hp all) =
        let (l, k, e1, e2, h') = (Own-Says s.parent pr ps a b hp st) in
        forked cs k hc h' (λ ws h.
          subst (Shuffle xs ys) (sym (put_after s.shown a ws l e2))
            (all (l ∷ ws) (subst (λ q. Shuffle cs q (l ∷ ws)) (sym e1) (from_parent l cs k ws h))))
    Step-Phase s _ (by_parent a b pr st) (failed ps ce hp sh) =
        let (l, k, e1, e2, h') = (Own-Says s.parent pr ps a b hp st) in
        failed k ce h' (put_after s.shown a k l e2 ∙ ap (λ q. s.shown ++ q) (sym e1) ∙ sh)
    Step-Phase s _ (by_child a b pr st) (unforked h o ce sh) =
        absurd (Own-end execvp s.child pr a b ce st)
    Step-Phase s _ (by_child a b pr st) (forked cs ps hc hp all) =
        let (l, k, e1, e2, h') = (Own-Says s.child pr cs a b hc st) in
        forked k ps h' hp (λ ws h.
          subst (Shuffle xs ys) (sym (put_after s.shown a ws l e2))
            (all (l ∷ ws) (subst (λ q. Shuffle q ps (l ∷ ws)) (sym e1) (from_child l k ps ws h))))
    Step-Phase s _ (by_child a b pr st) (failed ps ce hp sh) =
        absurd (Own-end execvp s.child pr a b ce st)
    Step-Phase s _ (waits k e ce) (unforked h o _ sh) = absurd (cc)
    Step-Phase s _ (waits k e ce) (forked cs ps hc hp all) =
        absurd (not_say s.parent ps wait k hp e (λ l f. cc))
    Step-Phase s _ (waits k e ce) (failed ps _ hp sh) =
        absurd (not_say s.parent ps wait k hp e (λ l f. cc))
    Step-Phase s _ (forks crow instead k e) (unforked h o ce sh) =
        forked xs ys (record { on_screen = o; to_say = cc }) (record { on_screen = o; to_say = cc })
          (λ ws h. rw sh h)
    Step-Phase s _ (forks crow instead k e) (forked cs ps hc hp all) =
        absurd (not_say s.parent ps (fork crow instead) k hp e (λ l f. cc))
    Step-Phase s _ (forks crow instead k e) (failed ps _ hp sh) =
        absurd (not_say s.parent ps (fork crow instead) k hp e (λ l f. cc))
    Step-Phase s _ (fork_fails crow instead k e) (unforked h o ce sh) =
        failed fs ce (record { on_screen = o; to_say = cc }) (rw sh refl)
    Step-Phase s _ (fork_fails crow instead k e) (forked cs ps hc hp all) =
        absurd (not_say s.parent ps (fork crow instead) k hp e (λ l f. cc))
    Step-Phase s _ (fork_fails crow instead k e) (failed ps _ hp sh) =
        absurd (not_say s.parent ps (fork crow instead) k hp e (λ l f. cc))

    Phase-shown :
        (s : System)
        → s.parent.rest ≡ end
        → s.child.rest ≡ end
        → Phase s
        → (s.shown ≡ fs) ⊎ Shuffle xs ys s.shown
    Phase-shown s pe ce (unforked h o _ sh) = absurd (cc)
    Phase-shown s pe ce (failed [] _ hp sh) = inl (sym (append-nil s.shown) ∙ sh)
    Phase-shown s pe ce (failed (l ∷ ps) _ hp sh) = absurd (let f = hp.to_say in cc)
    Phase-shown s pe ce (forked [] [] hc hp all) =
        inr (subst (Shuffle xs ys) (append-nil s.shown) (all [] none_left))
    Phase-shown s pe ce (forked (l ∷ cs) ps hc hp all) = absurd (let f = hc.to_say in cc)
    Phase-shown s pe ce (forked [] (l ∷ ps) hc hp all) = absurd (let f = hp.to_say in cc)

    -- A state of the two after the fork.
    abbrev both : List Line → List Line → List Line → System
    both cs ps out = record {
      shown = out;
      saved = [];
      parent = record { stdout = screen; rest = say_all ps };
      child = record { stdout = screen; rest = say_all cs };
    }

    shuffled :
        (cs ps out ws : List Line)
        → Shuffle cs ps ws
        → Reach (Step execvp) (start row) (both cs ps out)
        → Reach (Step execvp) (start row) (both [] [] (out ++ ws))
    shuffled _ _ out _ none_left r =
        subst (λ o. Reach (Step execvp) (start row) (both [] [] o)) (sym (append-nil out)) r
    shuffled _ _ out _ (from_child l cs ps ws h) r =
        subst (λ o. Reach (Step execvp) (start row) (both [] [] o)) (append_assoc out (l ∷ []) ws)
          (shuffled cs ps (out ++ l ∷ []) ws h
            (next r (by_child (l ∷ []) [] _ (does_say l (say_all cs) refl))))
    shuffled _ _ out _ (from_parent l cs ps ws h) r =
        subst (λ o. Reach (Step execvp) (start row) (both [] [] o)) (append_assoc out (l ∷ []) ws)
          (shuffled cs ps (out ++ l ∷ []) ws h
            (next r (by_parent (l ∷ []) [] _ (does_say l (say_all ps) refl))))

    there : (zs : List Line) → (zs ≡ fs) ⊎ Shuffle xs ys zs → Shows row zs
    there zs (inl e) = (
      both [] [] fs,
      shuffled [] fs [] fs (parent_only fs) (next here (fork_fails _ _ _ refl)),
      refl,
      refl,
      sym e,
    )
    there zs (inr h) =
        (both [] [] zs, shuffled xs ys [] zs h (next here (forks _ _ _ refl)), refl, refl, refl)

    back : (zs : List Line) → Shows row zs → (zs ≡ fs) ⊎ Shuffle xs ys zs
    back zs (s, r, pe, ce, e) =
        subst (λ q. (q ≡ fs) ⊎ Shuffle xs ys q) e
          (Phase-shown s pe ce
            (Reach-keeps (Step execvp) Phase Step-Phase (unforked refl refl refl refl) r))

  -- A program whose parent and child only print after the fork, as callingfork.c and
  -- callfork2.c, can show these lines when both have ended, and no others: if the fork fails
  -- the lines for that, and otherwise the lines of the child and of the parent put together in any
  -- order.
  pub any_order :
      (xs ys fs zs : List Line) → ((zs ≡ fs) ⊎ Shuffle xs ys zs) ↔ Shows (row xs ys fs) zs
  any_order xs ys fs zs = (there xs ys fs zs, back xs ys fs zs)
