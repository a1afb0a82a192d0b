-- ===== src/Pump/Order.antt =====
-- internal/server/server.go: what a connection gets, over any run of the daemon.
use pupptyeer.Prelude.{
  ◌<◌, ◌≤◌, ◌≡◌, refl, sym, ap, ◌∙◌, ◌⊎◌, inl, inr, Bool, true, false, List, [], ◌∷◌, ◌++◌, length,
  length-append, append-nil, append_assoc, arith, if◌then◌else◌, ltb,
}
use pupptyeer.Prelude.Assoc.{ℕ_eq}
use pupptyeer.Protocol.{Message}
use pupptyeer.World.{Conn, push_message, select_queue}
use pupptyeer.Pump.Stable.{Stable}

-- From `x` to `y` the queue has grown at its end, not over its limit, and a connection that was shut
-- down stays so.
pub record Grows (x y : Conn) : Type 0 where
  pub fresh : List Message
  pub grown : y.out ≡ x.out ++ fresh
  pub over : (x.done ≡ false) ⊎ (y.done ≡ true)
  pub bound : (256 < length x.out) ⊎ (length y.out ≤ 256)

pub Grows-still : (x y : Conn) → y.out ≡ x.out → (x.done ≡ false) ⊎ (y.done ≡ true) → Grows x y
Grows-still x y e h = record {
  fresh = [];
  grown = e ∙ sym (append-nil x.out);
  over = ground (arith, h);
  bound = ground (arith, e);
}

Grows-push : (x : Conn) (m : Message) → Grows x (push_message x m)
unfolding push_message
Grows-push x m =
    of_tests x.done (ltb (length x.out) 256) (select_queue x.picks).0 (select_queue x.picks).1 refl
      refl
  where
    grown-Grows :
        (y : Conn)
        → y.out ≡ x.out ++ m ∷ []
        → y.done ≡ x.done
        → ltb (length x.out) 256 ≡ true
        → Grows x y
    grown-Grows y e d f = record {
      fresh = m ∷ [];
      grown = e;
      over = ground (arith, d);
      bound =
          ground (arith, f, ap (λ (ms : List Message). length ms) e, length-append x.out (m ∷ []));
    }

    of_tests :
        (shut room queued : Bool) (rest : List Bool)
        → x.done ≡ shut
        → ltb (length x.out) 256 ≡ room
        → Grows x (
            if shut
            then (if room
                then record x { out = if queued then x.out ++ m ∷ [] else x.out; picks = rest }
                else x)
            else (if room
                then record x { out = x.out ++ m ∷ [] }
                else record x { dropping = true }))
    of_tests true true true rest e f = grown-Grows _ refl refl f
    of_tests true true false rest e f = Grows-still x (record x { picks = rest }) refl (inr e)
    of_tests true false queued rest e f = Grows-still x x refl (inr e)
    of_tests false true queued rest e f = grown-Grows _ refl refl f
    of_tests false false queued rest e f = Grows-still x (record x { dropping = true }) refl (inl e)

Grows-chain : (x y z : Conn) → Grows x y → Grows y z → Grows x z
Grows-chain x y z a b = record {
  fresh = a.fresh ++ b.fresh;
  grown = b.grown ∙ ap (λ ms. ms ++ b.fresh) a.grown ∙ append_assoc x.out a.fresh b.fresh;
  over = ground (arith, a.over, b.over);
  bound = ground (arith, a.bound, b.bound);
}

pub Grows-Stable : Stable Grows
Grows-Stable = record {
  same = λ x. Grows-still x x refl (ground arith);
  chain = Grows-chain;
  push = Grows-push;
  list = λ x ks. Grows-still x (record x { attached = ks }) refl (ground arith);
  shut = λ x. Grows-still x (record x { done = true }) refl (inr refl);
}

-- The same, with the messages `t` given to `Write` before and `u` after: written and queued messages
-- together, in this order, have grown at the end.
pub record Flow (x y : Conn) (t u : List Message) : Type 0 where
  pub fresh : List Message
  pub order : u ++ y.out ≡ (t ++ x.out) ++ fresh
  pub over : (x.done ≡ false) ⊎ (y.done ≡ true)
  pub bound : (256 < length x.out) ⊎ (length y.out ≤ 256)

pub Grows-Flow : (x y : Conn) (t : List Message) → Grows x y → Flow x y t t
Grows-Flow x y t g = record {
  fresh = g.fresh;
  order = ap (λ ms. t ++ ms) g.grown ∙ sym (append_assoc t x.out g.fresh);
  over = g.over;
  bound = g.bound;
}

pub Flow-chain : (x y z : Conn) (t u v : List Message) → Flow x y t u → Flow y z u v → Flow x z t v
Flow-chain x y z t u v a b = record {
  fresh = a.fresh ++ b.fresh;
  order = b.order ∙ ap (λ ms. ms ++ b.fresh) a.order ∙ append_assoc (t ++ x.out) a.fresh b.fresh;
  over = ground (arith, a.over, b.over);
  bound = ground (arith, a.bound, b.bound);
}

-- The head of the queue is written.
pub Flow-take :
    (x : Conn) (t : List Message) (m : Message) (ms : List Message)
    → x.out ≡ m ∷ ms
    → Flow x (record x { out = ms }) t (t ++ m ∷ [])
Flow-take x t m ms e = record {
  fresh = [];
  order = append_assoc t (m ∷ []) ms ∙ ap (λ ns. t ++ ns) (sym e) ∙ sym (append-nil (t ++ x.out));
  over = ground arith;
  bound = ground (arith, ap (λ (ns : List Message). length ns) e);
}
