-- ===== src/Client/Verbs/Ensure.antt =====
-- clients/go/client.go: what `EnsureSession` sends, on a connection that keeps the messages in order.
use pupptyeer.Prelude.{
  ◌≡◌, ◌≢◌, refl, sym, ap, text_eq, text_eq_iff, text_eq_sound, ◌∙◌, ◌⊎◌, inl, inr, Bool, true,
  false, Bytes, List, [], ◌∷◌, ◌++◌, Bool-cases, arith, if◌then◌else◌,
}
use pupptyeer.Prelude.Strings.{is_nil}
use pupptyeer.Client.Wire.{Message, SessionInfo, blank, type_new_session}
use pupptyeer.Client.Verbs.{
  ◌then◌, ns, SessionOption, with_raw, with_session_id, with_get_or_create, in_namespace,
  apply_option, apply_options, Program, new_session_message, list_message, new_session, sessions_of,
  list_sessions, has_alive, probed, ensured, create, ensure_session,
}

option-namespace :
    (m n : Message) (o : SessionOption)
    → m.namespace ≡ n.namespace
    → (apply_option m o).namespace ≡ (apply_option n o).namespace
unfolding apply_option
option-namespace m n with_raw h = h
option-namespace m n (with_session_id id) h = h
option-namespace m n with_get_or_create h = h
option-namespace m n (in_namespace space) h = ground (arith, h)

options-namespace :
    (m n : Message) (opts : List SessionOption)
    → m.namespace ≡ n.namespace
    → (apply_options m opts).namespace ≡ (apply_options n opts).namespace
unfolding apply_options
options-namespace m n [] h = h
options-namespace m n (o ∷ opts) h =
    options-namespace (apply_option m o) (apply_option n o) opts (option-namespace m n o h)

-- No option takes the namespace away.
option-named :
    (m : Message) (o : SessionOption)
    → is_nil m.namespace ≡ false
    → is_nil (apply_option m o).namespace ≡ false
unfolding apply_option
option-named m with_raw h = h
option-named m (with_session_id id) h = h
option-named m with_get_or_create h = h
option-named m (in_namespace space) h = ground (arith, h)

options-named :
    (m : Message) (opts : List SessionOption)
    → is_nil m.namespace ≡ false
    → is_nil (apply_options m opts).namespace ≡ false
unfolding apply_options
options-named m [] h = h
options-named m (o ∷ opts) h = options-named (apply_option m o) opts (option-named m o h)

option-type : (m : Message) (o : SessionOption) → (apply_option m o).type ≡ m.type
unfolding apply_option
option-type m with_raw = refl
option-type m (with_session_id id) = refl
option-type m with_get_or_create = refl
option-type m (in_namespace space) = ground arith

pub options-type : (m : Message) (opts : List SessionOption) → (apply_options m opts).type ≡ m.type
unfolding apply_options
options-type m [] = refl
options-type m (o ∷ opts) = options-type (apply_option m o) opts ∙ option-type m o

options-append :
    (m : Message) (os ps : List SessionOption)
    → apply_options m (os ++ ps) ≡ apply_options (apply_options m os) ps
unfolding apply_options
options-append m [] ps = refl
options-append m (o ∷ os) ps = options-append (apply_option m o) os ps

-- A connection that answers by what has been sent, and keeps it.
abbrev pub kept :
    (List Message → Message → Bytes ⊎ Message)
    → List Message
    → Message
    → List Message × (Bytes ⊎ Message)
kept reply log m = (log ++ m ∷ [], reply log m)

is_nil_sound : (bs : Bytes) → is_nil bs ≡ true → bs ≡ []
is_nil_sound [] h = refl
is_nil_sound (b ∷ bs) h = cc

abbrev pub asked : Bytes → List SessionOption → Message
asked default opts = list_message default (probed default opts ∷ [])

module _ (default : Bytes) (id : Bytes) (p : Program) (opts : List SessionOption) where
  abbrev pub wanted : Message
  wanted = new_session_message default p (ensured id opts)

  probed-named : is_nil (probed default opts) ≡ true → is_nil default ≡ true
  unfolding probed
  probed-named h = elim (Bool-cases (is_nil default)) [
    | inl e ↦ e
    | inr e ↦
        absurd (ground (arith, h, options-named (record blank { namespace = default }) opts e))
  ]

  asked-namespace : (asked default opts).namespace ≡ probed default opts
  unfolding list_message ns
  asked-namespace = elim (Bool-cases (is_nil (probed default opts))) [
    | inl e ↦
        rw e (is_nil_sound default (probed-named e) ∙ sym (is_nil_sound (probed default opts) e))
    | inr e ↦ rw e refl
  ]

  -- The message that asks for the session, before the two options that `EnsureSession` adds.
  base : Message
  base = record blank {
    type = type_new_session;
    namespace = default;
    command = p.command;
    args = p.args;
    cwd = p.cwd;
    env = p.env;
    cols = p.cols;
    rows = p.rows;
  }

  wanted-base :
      wanted ≡ record (apply_options base opts) { requested_id = id; get_or_create = true }
  unfolding new_session_message base apply_option apply_options
  wanted-base = options-append base opts (with_session_id id ∷ with_get_or_create ∷ [])

  abbrev pub IsWanted : Message → Type 0
  IsWanted m =
      (m.type ≡ type_new_session)
      × (m.namespace ≡ (asked default opts).namespace)
      × (m.requested_id ≡ id)
      × (m.get_or_create ≡ true)

  wanted-IsWanted : IsWanted wanted
  unfolding probed base
  wanted-IsWanted = ground (
    arith,
    wanted-base,
    options-type base opts,
    options-namespace base (record blank { namespace = default }) opts refl,
    asked-namespace,
  )

-- The list has a session of the id that is alive, and it has none.
abbrev pub HasLive : Bytes → List SessionInfo → Type 0
HasLive id [] = ⊥
HasLive id (info ∷ infos) = ((info.id ≡ id) × (info.alive ≡ true)) ⊎ HasLive id infos

abbrev pub LacksLive : Bytes → List SessionInfo → Type 0
LacksLive id [] = Unit {0}
LacksLive id (info ∷ infos) = ((info.id ≢ id) ⊎ (info.alive ≡ false)) × LacksLive id infos

differ : (s t : Bytes) → text_eq s t ≡ false → s ≢ t
differ s t h e = ground (arith, h, text_eq_iff s t, e)

has_alive-live :
    (id : Bytes) (infos : List SessionInfo) → has_alive id infos ≡ true → HasLive id infos
unfolding has_alive
has_alive-live id [] h = cc
has_alive-live id (info ∷ infos) h =
    ground (arith, h, text_eq_sound info.id id, has_alive-live id infos)

has_alive-lacks :
    (id : Bytes) (infos : List SessionInfo) → has_alive id infos ≡ false → LacksLive id infos
unfolding has_alive
has_alive-lacks id [] h = tt
has_alive-lacks id (info ∷ infos) h = ground (arith, h, differ info.id id, has_alive-lacks id infos)

module _ (reply : List Message → Message → Bytes ⊎ Message) (default : Bytes) (id : Bytes)
    (p : Program) (opts : List SessionOption) where
  -- What is returned for the answer to the second message.
  abbrev pub made : Bytes ⊎ Message → Bytes ⊎ Bool
  made (inl e) = inl e
  made (inr m) = inr true

  -- What `EnsureSession` has sent at its end, and returns, for the answer to its first message: an error;
  -- a list with a live session of the id; or another list.
  abbrev pub Ensures : List Message → Bytes ⊎ Message → List Message × (Bytes ⊎ Bool) → Type 0
  Ensures log answer (log', result) =
      ((e : Bytes) × (answer ≡ inl e) × (log' ≡ log) × (result ≡ inl e))
      ⊎ ((m : Message) × (answer ≡ inr m)
          × HasLive id m.sessions
          × (log' ≡ log)
          × (result ≡ inr false))
      ⊎ ((m : Message) × (answer ≡ inr m)
          × LacksLive id m.sessions
          × ((n : Message) × (log' ≡ log ++ n ∷ [])
              × IsWanted default id p opts n
              × (result ≡ made (reply log n))))

  new_session-made :
      (log : List Message) (x : Bytes ⊎ Message)
      → (((log, x) then λ r. inr r.session) then λ (s : Bytes). inr true) ≡ (log, made x)
  new_session-made log (inl e) = refl
  new_session-made log (inr m) = refl

  listed-Ensures :
      (log : List Message) (x : Bytes ⊎ Message)
      → Ensures log x (create (kept reply) default id p opts ((log, x) then λ r. inr r.sessions))
  unfolding create new_session
  listed-Ensures log (inl e) = inl (e, refl, refl, refl)
  listed-Ensures log (inr m) = elim (Bool-cases (has_alive id m.sessions)) [
    | inl alive ↦ rw alive (inr (inl (m, refl, has_alive-live id m.sessions alive, refl, refl)))
    | inr gone ↦
        let new = wanted default id p opts in
        let end = new_session-made (log ++ new ∷ []) (reply log new) in
        rw gone (
          inr (
            inr (
              m,
              refl,
              has_alive-lacks id m.sessions gone,
              (new, ap (λ y. y.0) end, wanted-IsWanted default id p opts, ap (λ y. y.1) end),
            )))
  ]

  -- `EnsureSession` first asks for the sessions of one namespace. If the answer is an error, it returns it;
  -- if the answer lists a live session of the id, it returns that none was created; and in both cases it
  -- sends no more. If the answer lists no live session of the id, it sends one more message, which asks
  -- to create or continue a session of this id in the same namespace, and returns that one was created,
  -- or the error of that.
  pub ensure_session_asks :
      (log : List Message)
      → let ask = asked default opts in
        Ensures
          (log ++ ask ∷ [])
          (reply log ask)
          (ensure_session (kept reply) default log id p opts)
  unfolding ensure_session list_sessions sessions_of
  ensure_session_asks log =
      listed-Ensures (log ++ asked default opts ∷ []) (reply log (asked default opts))
