-- ===== src/Dispatch/Answers/Sent.antt =====
-- internal/server/server.go: the messages that carry a request's id, as a connection gets them. A reply
-- carries the request's id; events (output, exit, closed) carry 0.
use pupptyeer.Prelude.{
  ℕ, ◌+◌, ◌≡◌, ◌⊎◌, inr, refl, true, false, Bytes, List, [], ◌∷◌, ◌++◌, arith, if◌then◌else◌,
}
use pupptyeer.Prelude.Int.{ℤ, pos, eqb_ℤ}
use pupptyeer.Prelude.Assoc.{ℕ_eq}
use pupptyeer.Protocol.{Message}
use pupptyeer.World.{Host, World, Conn, send, send_error, push_message}

-- How many of the messages carry the id.
unfoldable pub replies : ℤ → List Message → ℕ
replies id [] = 0
replies id (m ∷ ms) = (if eqb_ℤ m.id id then 1 else 0) + replies id ms

replies-append :
    (id : ℤ) (ms : List Message) (m : Message)
    → replies id (ms ++ m ∷ []) ≡ replies id ms + (if eqb_ℤ m.id id then 1 else 0)
unfolding replies
replies-append id [] m = omega arith
replies-append id (n ∷ ms) m = ground (arith, replies-append id ms m)

-- From `x` to `y` the connection stays open and gets `n` messages with the id, or is being dropped.
pub record Sent (id : ℤ) (n : ℕ) (x y : Conn) : Type 0 where
  pub still : y.done ≡ false
  pub outcome :
      (y.dropping ≡ true) ⊎ ((y.dropping ≡ x.dropping) × (replies id y.out ≡ replies id x.out + n))

pub Sent-none : (id : ℤ) (x : Conn) → x.done ≡ false → Sent id 0 x x
Sent-none id x up = record { still = up; outcome = inr (refl, omega arith) }

pub Sent-then :
    (id : ℤ) (n m : ℕ) (x y z : Conn) → Sent id n x y → Sent id m y z → Sent id (n + m) x z
Sent-then id n m x y z a b = ground (arith, a.outcome, b.outcome, b.still)

pub push_message-Sent :
    (id : ℤ) (x : Conn) (m : Message)
    → x.done ≡ false
    → Sent id (if eqb_ℤ m.id id then 1 else 0) x (push_message x m)
unfolding push_message
push_message-Sent id x m up = ground (arith, replies-append id x.out m)

module _ (H : Host) (id : ℤ) (c : ℕ) where
  abbrev pub Gets : ℕ → World H → World H → Type 0
  Gets n w w' = Sent id n (w.conn_at c) (w'.conn_at c)

  abbrev pub Quiet : World H → World H → Type 0
  Quiet w w' = Gets 0 w w'

  abbrev pub Open : World H → Type 0
  Open w = (w.conn_at c).done ≡ false

  pub then-Quiet : (n : ℕ) (u v w : World H) → Gets n u v → Quiet v w → Gets n u w
  then-Quiet n u v w a b = ground arith

  pub Quiet-then : (n : ℕ) (u v w : World H) → Quiet u v → Gets n v w → Gets n u w
  Quiet-then n u v w a b = ground arith

  send-Gets :
      (w : World H) (m : Message) → Open w → Gets (if eqb_ℤ m.id id then 1 else 0) w (send H w c m)
  unfolding send
  send-Gets w m up = ground (arith, push_message-Sent id (w.conn_at c) m up)

  pub reply-Gets : (w : World H) (m : Message) → Open w → m.id ≡ id → Gets 1 w (send H w c m)
  reply-Gets w m up e = ground (arith, send-Gets w m up)

  pub send_error-Gets :
      (w : World H) (ns session text : Bytes)
      → Open w
      → Gets 1 w (send_error H w c id ns session text)
  unfolding send_error
  send_error-Gets w ns session text up = reply-Gets w _ up refl

  module _ (tagged : eqb_ℤ (pos 0) id ≡ false) where
    pub send-Quiet :
        (w : World H) (d : ℕ) (m : Message) → Open w → m.id ≡ pos 0 → Quiet w (send H w d m)
    unfolding send
    send-Quiet w d m up e = ground (arith, push_message-Sent id (w.conn_at c) m up)
