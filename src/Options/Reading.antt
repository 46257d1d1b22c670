-- ===== src/Options/Reading.antt =====
-- main-common.c: what the options come to.
use sysprg.Prelude.{
  Bool-cases, inl, inr, ℕ, ◌≡◌, ◌≢◌, refl, sym, ap, ◌∙◌, Bool, true, false, ◌&&◌, ◌||◌, none, some,
  List, [], ◌∷◌, ◌==◌, ==-ne, ℕ_discrete, if◌then◌else◌,
}
use sysprg.Prelude.Int.{ℤ}
use sysprg.Options.{
  Settings, defaults, usage, begin_with, and_then, set_option, read_options, check, main_options,
}

-- What the last option `c` gives, and `d` if there is none.
unfoldable pub last_of {ℓ} : {A : Type ℓ} → (List ℕ → A) → ℕ → A → List (ℕ × List ℕ) → A
last_of f c d [] = d
last_of f c d ((k, a) ∷ gs) = last_of f c (if k == c then f a else d) gs

abbrev pub is_option : ℕ → Bool
is_option k =
    k == b'l'
    || k == b'm'
    || k == b'p'
    || k == b'c'
    || k == b'P'
    || k == b'C'
    || k == b'v'
    || k == b't'

pub all_options : List (ℕ × List ℕ) → Bool
all_options [] = true
all_options ((k, a) ∷ gs) = let rest = all_options gs in is_option k && rest

module _ (atoi : List ℕ → ℤ) where
  pub settings_of : Settings → List (ℕ × List ℕ) → Settings
  unfolding last_of
  settings_of s gs = record {
    loops = last_of atoi b'l' s.loops gs;
    max = last_of atoi b'm' s.max gs;
    producers = last_of atoi b'p' s.producers gs;
    consumers = last_of atoi b'c' s.consumers gs;
    producer_pause_string = last_of (λ a. some a) b'P' s.producer_pause_string gs;
    consumer_pause_string = last_of (λ a. some a) b'C' s.consumer_pause_string gs;
    do_trace = last_of (λ a. true) b'v' s.do_trace gs;
    do_timing = last_of (λ a. true) b't' s.do_timing gs;
  }

  unknown :
      (s : Settings) (k : ℕ) (a : List ℕ) (gs : List (ℕ × List ℕ))
      → k ≢ b'l'
      → k ≢ b'm'
      → k ≢ b'p'
      → k ≢ b'c'
      → k ≢ b'P'
      → k ≢ b'C'
      → k ≢ b'v'
      → k ≢ b't'
      → read_options atoi s ((k, a) ∷ gs)
        ≡ (if all_options ((k, a) ∷ gs) then some (settings_of s ((k, a) ∷ gs)) else none)
  unfolding read_options all_options set_option
  unknown s k a gs n1 n2 n3 n4 n5 n6 n7 n8 =
      let refused : set_option atoi s k a ≡ none =
        rw
          (
            ==-ne _ _ n1,
            ==-ne _ _ n2,
            ==-ne _ _ n3,
            ==-ne _ _ n4,
            ==-ne _ _ n5,
            ==-ne _ _ n6,
            ==-ne _ _ n7,
            ==-ne _ _ n8,
          )
          refl in
      let no_option : is_option k ≡ false =
        rw
          (
            ==-ne _ _ n1,
            ==-ne _ _ n2,
            ==-ne _ _ n3,
            ==-ne _ _ n4,
            ==-ne _ _ n5,
            ==-ne _ _ n6,
            ==-ne _ _ n7,
            ==-ne _ _ n8,
          )
          refl in
      ap (λ o. and_then o (λ s'. read_options atoi s' gs)) refused
      ∙ sym (
          ap (λ b. if b && all_options gs then some (settings_of s ((k, a) ∷ gs)) else none)
            no_option)

  read_options_lem :
      (s : Settings) (gs : List (ℕ × List ℕ))
      → read_options atoi s gs ≡ (if all_options gs then some (settings_of s gs) else none)
  unfolding read_options all_options settings_of last_of set_option
  read_options_lem s [] = refl
  read_options_lem s ((k, a) ∷ gs) = elim (ℕ_discrete k b'l') [
    | yes e ↦ rw e (read_options_lem (record s { loops = atoi a }) gs)
    | no n1 ↦ elim (ℕ_discrete k b'm') [
      | yes e ↦ rw e (read_options_lem (record s { max = atoi a }) gs)
      | no n2 ↦ elim (ℕ_discrete k b'p') [
        | yes e ↦ rw e (read_options_lem (record s { producers = atoi a }) gs)
        | no n3 ↦ elim (ℕ_discrete k b'c') [
          | yes e ↦ rw e (read_options_lem (record s { consumers = atoi a }) gs)
          | no n4 ↦ elim (ℕ_discrete k b'P') [
            | yes e ↦ rw e (read_options_lem (record s { producer_pause_string = some a }) gs)
            | no n5 ↦ elim (ℕ_discrete k b'C') [
              | yes e ↦ rw e (read_options_lem (record s { consumer_pause_string = some a }) gs)
              | no n6 ↦ elim (ℕ_discrete k b'v') [
                | yes e ↦ rw e (read_options_lem (record s { do_trace = true }) gs)
                | no n7 ↦ elim (ℕ_discrete k b't') [
                  | yes e ↦ rw e (read_options_lem (record s { do_timing = true }) gs)
                  | no n8 ↦ unknown s k a gs n1 n2 n3 n4 n5 n6 n7 n8
                ]
              ]
            ]
          ]
        ]
      ]
    ]
  ]

  -- `main` of main-common.c goes to `usage` if there is a letter that is no option. Otherwise it has
  -- for each setting what the last option for it gives, or the default, and goes on with these if
  -- the assertions on them hold.
  pub main_options_lem :
      (gs : List (ℕ × List ℕ))
      → main_options atoi gs
        ≡ (if all_options gs then check atoi (settings_of defaults gs) else usage)
  unfolding main_options
  main_options_lem gs =
      ap (begin_with atoi) (read_options_lem defaults gs)
      ∙ elim (Bool-cases (all_options gs)) [ inl e ↦ rw e refl | inr e ↦ rw e refl ]
