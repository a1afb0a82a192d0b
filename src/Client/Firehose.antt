-- ===== src/Client/Firehose.antt =====
-- clients/go/client.go: `AttachRaw` behind its handshake line, with internal/server/raw.go at the other
-- end. `reads` are what the socket delivers, in any cut, and its end.
use pupptyeer.Prelude.{
  ℕ, ◌≡◌, ◌⊎◌, inl, inr, refl, ap, ◌∙◌, Bool, true, false, ◌&&◌, Option, none, some, Bytes, List,
  [], ◌∷◌, ◌++◌, codes, concat, text_eq, append_assoc, arith, if◌then◌else◌, Option-cases,
  append-nil,
}
use pupptyeer.Prelude.Strings.{cut, trim_space, trim_left, trim_right}
use pupptyeer.Ring as Ring
use pupptyeer.Prelude.Assoc.{update_same}
use pupptyeer.World.{Host, World, RawConn, get_session, push_chunk}
use pupptyeer.Raw.{Pipe, new_raw_conn, connect, connect_to, greeting}
use pupptyeer.Attach
use pupptyeer.Client.Verbs.{ns, raw_line, raw_refusal}
use pupptyeer.Client.Verbs.Daemon.{IsTrimmed, has_tab, handshake-raw_line}

-- `bufio.Reader.ReadString` at a newline: the line, and what is left; or the end came first.
unfoldable pub read_string : List Bytes → Option (Bytes × List Bytes)
read_string [] = none
read_string (chunk ∷ reads) = elim (cut 10 chunk) [
  | some (front, back) ↦ some (front ++ 10 ∷ [], back ∷ reads)
  | none ↦ elim (read_string reads) [ none ↦ none | some (line, rest) ↦ some (chunk ++ line, rest) ]
]

-- An error of the dial, of the write or of the read, the daemon's refusal, or the connection with what
-- its reads deliver, the buffered bytes first.
pub data RawAttach : Type 0 where
  broken : RawAttach
  refused : Bytes → RawAttach
  piped : List Bytes → RawAttach

unfoldable pub of_status : List Bytes → Option Bytes → RawAttach
of_status rest (some e) = refused e
of_status rest none = piped rest

unfoldable pub of_line : Option (Bytes × List Bytes) → RawAttach
of_line none = broken
of_line (some (status, rest)) = of_status rest (raw_refusal status)

-- `AttachRaw`: whether it could dial and write its line, and the reads.
pub attach_raw : Bool → Bool → List Bytes → RawAttach
attach_raw dialed written reads = if dialed && written then of_line (read_string reads) else broken

-- The error, or all that the connection delivers.
unfoldable pub delivered : RawAttach → Bytes ⊎ Bytes
delivered broken = inl []
delivered (refused e) = inl e
delivered (piped rest) = inr (concat rest)

-- A cut in front of more, and behind a text without the byte.
cut-front :
    (c : ℕ) (s t front back : Bytes)
    → cut c s ≡ some (front, back)
    → cut c (s ++ t) ≡ some (front, back ++ t)
unfolding cut
cut-front c [] t front back e = absurd (ground arith)
cut-front c (b ∷ s) t front back e = elim (Option-cases (cut c s)) [
  | inl n ↦ ground (arith, n)
  | inr ((f, k), n) ↦ ground (arith, n, cut-front c s t f k n)
]

cut-behind :
    (c : ℕ) (s t front back : Bytes)
    → cut c s ≡ none
    → cut c (s ++ t) ≡ some (front, back)
    → (f : Bytes) × (cut c t ≡ some (f, back)) × (front ≡ s ++ f)
unfolding cut
cut-behind c [] t front back n e = (front, e, refl)
cut-behind c (b ∷ s) t front back n e = elim (Option-cases (cut c (s ++ t))) [
  | inl m ↦ absurd (ground (arith, m))
  | inr ((f, k), m) ↦
      let (g, h, i) = cut-behind c s t f k (ground arith) m in
      (g, ground (arith, m, h), ground (arith, m, i))
]

-- Only the bytes count, not how they are cut.
read_string-concat :
    (reads : List Bytes) (front back : Bytes)
    → cut 10 (concat reads) ≡ some (front, back)
    → (rest : List Bytes) × (read_string reads ≡ some (front ++ 10 ∷ [], rest))
      × (concat rest ≡ back)
unfolding read_string cut
read_string-concat [] front back e = absurd (ground arith)
read_string-concat (chunk ∷ reads) front back e = elim (Option-cases (cut 10 chunk)) [
  | inl n ↦
      let (f, h, i) = cut-behind 10 chunk (concat reads) front back n e in
      let (rest, read, same) = read_string-concat reads f back h in
      (rest, ground (arith, n, read, i, append_assoc chunk f (10 ∷ [])), same)
  | inr ((f, k), n) ↦
      let there = cut-front 10 chunk (concat reads) f k n in
      (k ∷ reads, ground (arith, n, e, there), ground (arith, e, there))
]

attach_raw-line :
    (reads : List Bytes) (front back : Bytes)
    → cut 10 (concat reads) ≡ some (front, back)
    → (rest : List Bytes) × (attach_raw true true reads
        ≡ of_status rest (raw_refusal (front ++ 10 ∷ [])))
      × (concat rest ≡ back)
unfolding attach_raw of_line
attach_raw-line reads front back e =
    let (rest, read, same) = read_string-concat reads front back e in (rest, rw read refl, same)

module _ (H : Host) where
  -- What the queue of a new pipe holds, after its snapshot was queued.
  unfoldable pub queued : Bytes ⊎ (World H × Pipe) → Bytes
  queued (inl refusal) = []
  queued (inr (w, p)) = concat (w.raw_at p.raw).out

  -- What a client that addresses a session is told, or given, in front of `more`.
  unfoldable pub promised : World H → Bytes → Option ℕ → Bytes ⊎ Bytes
  promised w more none = inl (codes "raw attach: ERR session not found")
  promised w more (some r) = inr (Ring.snapshot (w.sess_at r).core.ring ++ more)

  -- The queue of a pipe that is new is the snapshot.
  replay_raw-queued :
      (w : World H) (rc : ℕ) (s : Bytes) (picks : List Bool)
      → w.raw_at rc ≡ new_raw_conn picks
      → concat ((Attach.replay_raw H w rc s).raw_at rc).out ≡ s
  unfolding Attach.replay_raw push_chunk
  replay_raw-queued w rc [] picks new = ap (λ (x : RawConn). concat x.out) new
  replay_raw-queued w rc (b ∷ bs) picks new = ground (arith, append-nil (b ∷ bs))

  connect-promised :
      (w : World H) (more : Bytes) (o : Option ℕ) (reads : List Bytes)
      → concat reads ≡ greeting H (connect_to H w o) ++ (queued (connect_to H w o) ++ more)
      → delivered (attach_raw true true reads) ≡ promised w more o
  unfolding Attach.attach_raw connect_to greeting queued promised cut of_status raw_refusal
      delivered trim_space trim_left trim_right text_eq
  connect-promised w more none reads e =
      let (rest, got, same) =
        attach_raw-line reads (codes "ERR session not found") more (ap (cut 10) e) in
      ap delivered got
  connect-promised w more (some r) reads e =
      let (rest, got, same) =
        attach_raw-line reads (codes "OK") (queued (connect_to H w (some r)) ++ more)
          (ap (cut 10) e) in
      ap delivered got
      ∙ ap inr (
          same
          ∙ ap (λ s. s ++ more)
              (replay_raw-queued _ w.next_raw _ _
                (update_same w.raw_at w.next_raw (new_raw_conn (H.raw_picks w.next_raw)))))

  -- Once the line is written, where the names are trimmed and the namespace has no tab, and the reads are
  -- a cut of the daemon's answer, the queue and what follows: for a session that the daemon has,
  -- `AttachRaw` returns a connection that delivers the scrollback and then what follows; for another
  -- session it returns the daemon's refusal.
  pub attach_raw_reads :
      (w : World H) (default session : Bytes) (spaces : List Bytes) (more : Bytes)
      (reads : List Bytes)
      → IsTrimmed (ns default spaces)
      → has_tab (ns default spaces) ≡ false
      → IsTrimmed session
      → let made = connect H w (raw_line default session spaces) in
        concat reads ≡ greeting H made ++ (queued made ++ more)
        → delivered (attach_raw true true reads)
          ≡ promised w more (get_session H w (ns default spaces) session)
  unfolding connect
  attach_raw_reads w default session spaces more reads trimmed no_tab id e = ground (
    arith,
    handshake-raw_line default session spaces trimmed no_tab id,
    connect-promised w more (get_session H w (ns default spaces) session) reads,
  )
