-- ===== src/ProducerConsumer/Invariant.antt =====
-- What holds in every state of the programs whose waits stand in a `while`.
use sysprg.Prelude.{
  ℕ, ◌<◌, ◌≡◌, ◌≢◌, refl, sym, ◌∙◌, ap, Bool, true, false, none, some, List, [], ◌∷◌, ◌++◌,
  append_assoc, update, arith,
}
use sysprg.Prelude.Int.{ℤ}
use sysprg.Buffer.{Shared, ok, do_fill, make_buffer, empty}
use sysprg.Buffer.Queue.{
  Represents, do_fill-Fills, do_get-Gets, make_buffer-Represents, Fills, Gets,
}
use sysprg.ProducerConsumer.{
  Config, Mem, System, Move, Step, Reach, value, Pc, Signals, Wakes, Rouses, init, p_test, p_fill,
  p_signal, p_unlock, c_test, c_get, c_signal, c_unlock, p_take, p_room, p_retake, p_put, c_take,
  c_some, c_retake, c_take_out, act, signal_one, signal_none, rouse, p_signals, c_signals, p_rouses,
  c_rouses, start, later, fill_wakes,
}

-- The places between Mutex_lock and Mutex_unlock at which a thread has the mutex.
abbrev pub holds : Pc → Bool
holds (p_test _) = true
holds (p_fill _) = true
holds (p_signal _) = true
holds (p_unlock _) = true
holds (c_test _) = true
holds (c_get _) = true
holds (c_signal _ _) = true
holds (c_unlock _ _) = true
holds _ = false

-- Past its test a thread knows that there is room, or that there is a value.
abbrev pub Knows : ℕ → ℕ → Pc → Type 0
Knows max num_full (p_fill _) = num_full ≢ max
Knows max num_full (c_get _) = num_full ≢ 0
Knows max num_full _ = Unit

-- The buffer holds a queue, and what was put in is what was taken out and the queue, in this order.
pub record Stored (max : ℕ) (m : Mem) : Type 0 where
  pub queue : List ℤ
  pub represents : Represents m.shared queue
  pub order : m.put ≡ m.got ++ queue
  pub sized : m.shared.max ≡ max

pub record Inv (max : ℕ) (s : System) : Type 0 where
  pub owner : (j : ℕ) → holds (s.pc j) ≡ true → s.mem.lock ≡ some j
  pub knows : (j : ℕ) → Knows max s.mem.shared.num_full (s.pc j)
  pub stored : Stored max s.mem

pub value-ne : (cfg : Config) (id i : ℕ) → value cfg id i ≢ empty
value-ne cfg id i = ground arith

Stored-put :
    {max : ℕ} {m : Mem} (v : ℤ) {s : Shared}
    → v ≢ empty
    → do_fill v m.shared ≡ ok s
    → Stored max m
    → Stored max (record m { shared = s; put = m.put ++ v ∷ [] })
Stored-put {max} {m} v {s} ne f st = record {
  queue = st.queue ++ v ∷ [];
  represents = fills.1;
  order = ap (λ l. l ++ v ∷ []) st.order ∙ append_assoc m.got st.queue (v ∷ []);
  sized = fills.2 ∙ st.sized;
}
  where
    fills : Fills m.shared.max v st.queue (ok s)
    fills = rw f at (do_fill-Fills v ne st.represents)

Stored-get :
    {max : ℕ} (m : Mem) (v : ℤ) (s : Shared) (q : List ℤ)
    → Gets m.shared.max q (ok (v, s))
    → m.put ≡ m.got ++ q
    → m.shared.max ≡ max
    → Stored max (record m { shared = s; got = m.got ++ v ∷ [] })
Stored-get m v s [] g o z = absurd g
Stored-get m v s (x ∷ q) (e, rep, sz) o z = record {
  queue = q;
  represents = rep;
  order = o ∙ ap (λ y. m.got ++ y ∷ q) (sym e) ∙ sym (append_assoc m.got (v ∷ []) q);
  sized = sz ∙ z;
}

Signals-holds : {p q : Pc} → Signals p q → (holds p ≡ true) × (holds q ≡ true)
Signals-holds p_signals = (refl, refl)
Signals-holds c_signals = (refl, refl)

Signals-Knows : {p q : Pc} → Signals p q → (max n : ℕ) → Knows max n q
Signals-Knows p_signals max n = tt
Signals-Knows c_signals max n = tt

Wakes-holds : {cfg : Config} {p q r : Pc} → Wakes cfg p q r → holds r ≡ false
Wakes-holds fill_wakes = refl
Wakes-holds _ = refl

Wakes-Knows : {cfg : Config} {p q r : Pc} → Wakes cfg p q r → (max n : ℕ) → Knows max n r
Wakes-Knows fill_wakes max n = tt
Wakes-Knows _ max n = tt

Rouses-holds : {p q : Pc} → Rouses p q → holds q ≡ false
Rouses-holds p_rouses = refl
Rouses-holds c_rouses = refl

Rouses-Knows : {p q : Pc} → Rouses p q → (max n : ℕ) → Knows max n q
Rouses-Knows p_rouses max n = tt
Rouses-Knows c_rouses max n = tt

module _ (cfg : Config) (while_waits : cfg.program.retests ≡ true) where
  -- The premise of a move on the mutex, for the catch-all clauses below.
  abbrev Guard : {id : ℕ} {m m' : Mem} {p p' : Pc} → Move cfg id m p m' p' → Type 0
  Guard {m} (p_take _ _) = m.lock ≡ none
  Guard {m} (p_retake _) = m.lock ≡ none
  Guard {m} (c_take _) = m.lock ≡ none
  Guard {m} (c_retake _) = m.lock ≡ none
  Guard {m} (p_room _) = m.shared.num_full ≢ cfg.max
  Guard {m} (c_some _) = m.shared.num_full ≢ 0
  Guard _ = Unit

  guard : {id : ℕ} {m m' : Mem} {p p' : Pc} (mv : Move cfg id m p m' p') → Guard mv
  guard (p_take _ g) = g
  guard (p_retake g) = g
  guard (c_take g) = g
  guard (c_retake g) = g
  guard (p_room g) = g
  guard (c_some g) = g
  guard _ = tt

  module _ {id : ℕ} {m : Mem} {pc : ℕ → Pc} (inv : Inv cfg.max (record { mem = m; pc = pc })) where
    open inv use {owner, knows, stored}

    Move-owner :
        {p p' : Pc} {m' : Mem}
        → Move cfg id m p m' p'
        → pc id ≡ p
        → (j : ℕ) → holds (update pc id p' j) ≡ true
        → m'.lock ≡ some j
    Move-owner (p_take a b) e j h = ground (arith, owner j, owner id)
    Move-owner mv e j h = ground (arith, guard mv, owner j, owner id)

    Move-Knows :
        {p p' : Pc} {m' : Mem}
        → Move cfg id m p m' p'
        → pc id ≡ p
        → (j : ℕ) → Knows cfg.max m'.shared.num_full (update pc id p' j)
    Move-Knows (p_take a b) e j = ground (arith, knows j)
    Move-Knows (p_put f) e j = ground (arith, owner j, owner id)
    Move-Knows (c_take_out f) e j = ground (arith, owner j, owner id)
    Move-Knows mv e j = ground (arith, guard mv, knows j)

    Move-Stored : {p p' : Pc} {m' : Mem} → Move cfg id m p m' p' → Stored cfg.max m'
    Move-Stored (p_take a b) = record { queue = q; represents = r; order = o; sized = z }
      where
        open stored use {queue as q, represents as r, order as o, sized as z}
    Move-Stored (p_put {i} f) = Stored-put (value cfg id i) (value-ne cfg id i) f stored
    Move-Stored (c_take_out {v} {s} f) =
        Stored-get m v s stored.queue (rw f at (do_get-Gets stored.queue stored.represents))
          stored.order stored.sized
    Move-Stored mv = record { queue = q; represents = r; order = o; sized = z }
      where
        open stored use {queue as q, represents as r, order as o, sized as z}

  Step-Inv : {s t : System} → Step cfg s t → Inv cfg.max s → Inv cfg.max t
  Step-Inv {s} (act id le may mv) inv = record {
    owner = Move-owner inv mv refl;
    knows = Move-Knows inv mv refl;
    stored = Move-Stored inv mv;
  }
  Step-Inv {s} (signal_one id j {p} {q} sg w) inv = record {
    owner = λ k h. ground (arith, Signals-holds sg, Wakes-holds w, inv.owner k, inv.owner id);
    knows = λ k. ground (arith, Signals-Knows sg max n, Wakes-Knows w max n, inv.knows k);
    stored = inv.stored;
  }
    where
      max : ℕ
      max = cfg.max

      n : ℕ
      n = s.mem.shared.num_full
  Step-Inv {s} (signal_none id sg w) inv = record {
    owner = λ k h. ground (arith, Signals-holds sg, inv.owner k, inv.owner id);
    knows = λ k. ground (arith, Signals-Knows sg cfg.max s.mem.shared.num_full, inv.knows k);
    stored = inv.stored;
  }
  Step-Inv {s} (rouse j r) inv = record {
    owner = λ k h. ground (arith, Rouses-holds r, inv.owner k);
    knows = λ k. ground (arith, Rouses-Knows r cfg.max s.mem.shared.num_full, inv.knows k);
    stored = inv.stored;
  }

  Inv-init : 0 < cfg.max → Inv cfg.max (init cfg)
  unfolding make_buffer
  Inv-init h = record {
    owner = λ j e. ground arith;
    knows = λ j. ground arith;
    stored = record {
      queue = [];
      represents = make_buffer-Represents cfg.max h;
      order = refl;
      sized = refl;
    };
  }

  pub Reach-Inv : {s : System} → 0 < cfg.max → Reach cfg s → Inv cfg.max s
  Reach-Inv h start = Inv-init h
  Reach-Inv h (later r st) = Step-Inv st (Reach-Inv h r)
