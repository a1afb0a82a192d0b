-- ===== src/Pump/Served.antt =====
-- internal/server/server.go: a request, from the reader of a connection to its writer.
use pupptyeer.Prelude.{
  ℕ, ◌+◌, ◌≡◌, refl, sym, ap, ◌∙◌, ◌⊎◌, inl, inr, true, false, some, List, [], ◌∷◌, ◌++◌, length,
  replicate, append-nil, append_assoc, arith,
}
use pupptyeer.Prelude.Int.{ℤ, pos, eqb_ℤ}
use pupptyeer.Prelude.Assoc.{update, update_same}
use pupptyeer.Protocol.{Message, request_of}
use pupptyeer.World.{Host, Conn, set_conn}
use pupptyeer.Daemon.{Outside}
use pupptyeer.Dispatch.{dispatch}
use pupptyeer.Dispatch.Answers.{is_call, dispatch_answers}
use pupptyeer.Dispatch.Answers.Sent.{replies}
use pupptyeer.Pump.{Pump, Op, reads, writes, set_world, take_out, step, run}

replies-append :
    (id : ℤ) (ms ns : List Message) → replies id (ms ++ ns) ≡ replies id ms + replies id ns
unfolding replies
replies-append id [] ns = omega arith
replies-append id (m ∷ ms) ns = omega (arith, replies-append id ms ns)

module _ (H : Host) (c : ℕ) where
  abbrev taken : Pump H → Message → List Message → Pump H
  taken p m ms = record p {
    world = set_conn H p.world c (record (p.world.conn_at c) { out = ms });
    tried = update p.tried c (p.tried c ++ m ∷ []);
  }

  step-writes :
      (p : Pump H) (m : Message) (ms : List Message)
      → p.writing c ≡ true
      → (p.world.conn_at c).out ≡ m ∷ ms
      → step H p (writes c) ≡ some (taken p m ms)
  unfolding step take_out
  step-writes p m ms on e = rw (on, step) (ap (take_out H p c) e)

  step-reads :
      (p : Pump H) (o : Outside) (m : Message)
      → p.reading c ≡ true
      → step H p (reads c o m) ≡ some (set_world H p (dispatch H p.world o c m))
  unfolding step
  step-reads p o m on = rw (on, step) refl

  run-cons :
      (p q : Pump H) (o : Op) (os : List Op) → step H p o ≡ some q → run H p (o ∷ os) ≡ run H q os
  unfolding run
  run-cons p q o os e = rw (e, run) refl

  abbrev Drained : Pump H → List Message → Type 0
  Drained p ms =
      (q : Pump H) × (run H p (replicate (length ms) (writes c)) ≡ some q)
      × (q.tried c ≡ p.tried c ++ ms)
      × (q.world.conn_at c ≡ record (p.world.conn_at c) { out = [] })

  -- A writer that runs can write all that is queued.
  drain :
      (p : Pump H) (ms : List Message)
      → p.writing c ≡ true
      → (p.world.conn_at c).out ≡ ms
      → Drained p ms
  unfolding run
  drain p [] on e = (
    p,
    refl,
    sym (append-nil (p.tried c)),
    ap (λ (ns : List Message). record (p.world.conn_at c) { out = ns }) e,
  )
  drain p (m ∷ ms) on e =
      let p' = taken p m ms in
      let x' = record (p.world.conn_at c) { out = ms } in
      let here : p'.world.conn_at c ≡ x' = update_same p.world.conn_at c x' in
      let (q, ran, written, left) = drain p' ms on (ap (λ (x : Conn). x.out) here) in
      (
        q,
        run-cons p p' (writes c) (replicate (length ms) (writes c)) (step-writes p m ms on e) ∙ ran,
        written
            ∙ ap (λ (ns : List Message). ns ++ ms) (update_same p.tried c (p.tried c ++ m ∷ []))
            ∙ append_assoc (p.tried c) (m ∷ []) ms,
        left ∙ ap (λ (x : Conn). record x { out = [] }) here,
      )

  module _ (m : Message) (tagged : eqb_ℤ (pos 0) m.id ≡ false) where
    -- A request that its client waits for is served: while both loops of an open connection run, its reader
    -- can take the request and its writer then all that is queued, and unless the queue was full on
    -- the way, the messages given to `Write` hold exactly one more with the request's id than had
    -- been written or queued before.
    pub request_served :
        (p : Pump H) (o : Outside)
        → is_call (request_of m.type) ≡ true
        → p.reading c ≡ true
        → p.writing c ≡ true
        → (p.world.conn_at c).done ≡ false
        → let y = (dispatch H p.world o c m).conn_at c in
          (q : Pump H) × (run H p (reads c o m ∷ replicate (length y.out) (writes c)) ≡ some q)
          × ((q.world.conn_at c).out ≡ [])
          × ((y.dropping ≡ true)
              ⊎ (replies m.id (q.tried c)
                  ≡ replies m.id (p.tried c ++ (p.world.conn_at c).out) + 1))
    request_served p o call reading writing up =
        let w' = dispatch H p.world o c m in
        let y = w'.conn_at c in
        let p' = set_world H p w' in
        let (q, ran, written, left) = drain p' y.out writing refl in
        let answered = dispatch_answers H c m tagged p.world o call up in
        (
          q,
          run-cons p p' (reads c o m) (replicate (length y.out) (writes c))
                (step-reads p o m reading)
              ∙ ran,
          ap (λ (x : Conn). x.out) left,
          elim answered.1 [
            | inl full ↦ inl full
            | inr (kept, one) ↦ inr (
                ap (replies m.id) written
                ∙ omega (
                  arith,
                  one,
                  replies-append m.id (p.tried c) y.out,
                  replies-append m.id (p.tried c) (p.world.conn_at c).out,
                ))
          ],
        )
