-- ===== src/Client/Verbs/Daemon.antt =====
-- clients/go/client.go against internal/server: what the daemon makes of the client's messages and of the
-- line of `AttachRaw`.
use pupptyeer.Prelude.{
  ℕ, ◌≡◌, inl, inr, refl, sym, ap, ap₂, ◌∙◌, Bool, true, false, some, Bytes, List, [], ◌∷◌, ◌++◌,
  append_assoc, length, ◌≤◌, Bool-cases, ◌==◌, arith, if◌then◌else◌,
}
use pupptyeer.Prelude.Int.{ℤ, pos}
use pupptyeer.Prelude.Strings.{is_nil, is_space, trim_left, trim_right, trim_space, cut}
use pupptyeer.Protocol
use pupptyeer.Protocol.{Request}
use pupptyeer.World.{World}
use pupptyeer.Raw.{handshake, address}
use pupptyeer.Client.Wire.{Message}
use pupptyeer.Client.Wire.Parity.{to_message}
use pupptyeer.Client.Verbs.{
  ns, SessionOption, CaptureOption, Program, new_session_message, list_message, list_all_message,
  attach_message, capture_message, kill_message, gc_message, gc_all_message, raw_line,
}

-- The methods that wait for a reply, with their arguments.
pub data Method : Type 0 where
  new_session : Program → List SessionOption → Method
  list_sessions : List Bytes → Method
  list_all_sessions : Method
  attach : Bytes → ℤ → ℤ → List Bytes → Method
  capture : Bytes → Bool → List CaptureOption → Method
  kill : Bytes → List Bytes → Method
  gc : ℤ → List Bytes → Method
  gc_all : ℤ → Method

unfoldable pub message_of : Bytes → Method → Message
message_of default (new_session p opts) = new_session_message default p opts
message_of default (list_sessions spaces) = list_message default spaces
message_of default list_all_sessions = list_all_message
message_of default (attach session cols rows spaces) =
    attach_message default session cols rows spaces
message_of default (capture session render opts) = capture_message default session render opts
message_of default (kill session spaces) = kill_message default session spaces
message_of default (gc max_idle spaces) = gc_message default max_idle spaces
message_of default (gc_all max_idle) = gc_all_message max_idle

-- The message of a method as `call` writes it for the number, on the daemon's side.
abbrev pub numbered : Bytes → Method → ℕ → Protocol.Message
numbered default v n = to_message (record (message_of default v) { id = pos n })

-- What a method asks of the daemon: the handler, and the fields that this handler reads for it.
abbrev pub IsMeant : Bytes → Method → Request → Protocol.Message → Type 0
IsMeant default (new_session p opts) q m =
    (q ≡ Protocol.new_session) × (m.command ≡ p.command) × (m.args ≡ p.args)
IsMeant default (list_sessions spaces) q m =
    (q ≡ Protocol.list_sessions) × (m.all ≡ false) × (m.namespace ≡ ns default spaces)
IsMeant default list_all_sessions q m = (q ≡ Protocol.list_sessions) × (m.all ≡ true)
IsMeant default (attach session cols rows spaces) q m =
    (q ≡ Protocol.attach)
    × (m.session ≡ session)
    × (m.namespace ≡ ns default spaces)
    × (m.cols ≡ cols)
    × (m.rows ≡ rows)
IsMeant default (capture session render opts) q m =
    (q ≡ Protocol.capture_pane) × (m.session ≡ session) × (m.render ≡ render)
IsMeant default (kill session spaces) q m =
    (q ≡ Protocol.kill) × (m.session ≡ session) × (m.namespace ≡ ns default spaces)
IsMeant default (gc max_idle spaces) q m =
    (q ≡ Protocol.gc)
    × (m.all ≡ false)
    × (m.namespace ≡ ns default spaces)
    × (m.max_idle_seconds ≡ max_idle)
IsMeant default (gc_all max_idle) q m =
    (q ≡ Protocol.gc) × (m.all ≡ true) × (m.max_idle_seconds ≡ max_idle)

type-to_message : (m : Message) → (to_message m).type ≡ m.type
unfolding to_message
type-to_message m = refl

id-to_message : (m : Message) → (to_message m).id ≡ m.id
unfolding to_message
id-to_message m = refl

-- No space at either end.
abbrev pub IsTrimmed : Bytes → Type 0
IsTrimmed s = (trim_left s ≡ s) × (trim_right s ≡ s) × (is_nil s ≡ false)

unfoldable pub has_tab : Bytes → Bool
has_tab [] = false
has_tab (b ∷ bs) = if b == 9 then true else has_tab bs

length-trim_left : (s : Bytes) → length (trim_left s) ≤ length s
unfolding trim_left
length-trim_left [] = omega arith
length-trim_left (b ∷ s) = ground (arith, length-trim_left s)

is_nil-append : (s t : Bytes) → is_nil t ≡ false → is_nil (s ++ t) ≡ false
is_nil-append [] t h = h
is_nil-append (b ∷ s) t h = refl

trim_left-append : (s t : Bytes) → trim_left s ≡ s → is_nil s ≡ false → trim_left (s ++ t) ≡ s ++ t
unfolding trim_left
trim_left-append [] t h full = cc
trim_left-append (b ∷ s) t h full = elim (Bool-cases (is_space b)) [
  | inl e ↦ absurd (omega (arith, length-trim_left s, ap length (shorter e)))
  | inr e ↦ rw e refl
]
  where
    shorter : is_space b ≡ true → trim_left s ≡ b ∷ s
    shorter e = ground (arith, h, e)

trim_right-newline : (s : Bytes) → trim_right (s ++ 10 ∷ []) ≡ trim_right s
unfolding trim_right
trim_right-newline [] = refl
trim_right-newline (b ∷ s) = rw (trim_right-newline s) refl

trim_right-append :
    (s t : Bytes) → trim_right t ≡ t → is_nil t ≡ false → trim_right (s ++ t) ≡ s ++ t
unfolding trim_right
trim_right-append [] t h full = h
trim_right-append (b ∷ s) t h full = rw (trim_right-append s t h full, is_nil-append s t full) refl

cut-tab : (s t : Bytes) → has_tab s ≡ false → cut 9 (s ++ 9 ∷ t) ≡ some (s, t)
unfolding cut has_tab
cut-tab [] t h = refl
cut-tab (b ∷ s) t h = ground (arith, cut-tab s t)

trim_space-same : (s : Bytes) → IsTrimmed s → trim_space s ≡ s
unfolding trim_space
trim_space-same s (left, right, full) = rw (left, right) refl

trim_space-line :
    (space session : Bytes)
    → IsTrimmed space
    → IsTrimmed session
    → trim_space (space ++ 9 ∷ session ++ 10 ∷ []) ≡ space ++ 9 ∷ session
unfolding trim_space
trim_space-line space session (left, _, full) (_, right, some_id) =
    ap (λ (x : Bytes). trim_right (trim_left x)) (append_assoc space (9 ∷ session) (10 ∷ []))
    ∙ ap trim_right (trim_left-append space (9 ∷ session ++ 10 ∷ []) left full)
    ∙ ap trim_right (sym (append_assoc space (9 ∷ session) (10 ∷ [])))
    ∙ trim_right-newline (space ++ 9 ∷ session)
    ∙ trim_right-append space (9 ∷ session) (trim_right-append (9 ∷ []) session right some_id) refl

handshake-cut :
    (line sid space id : Bytes)
    → trim_space line ≡ sid
    → cut 9 sid ≡ some (space, id)
    → handshake line ≡ (trim_space space, trim_space id)
unfolding handshake address
handshake-cut line sid space id h e = ap (λ (x : Bytes). address x (cut 9 x)) h ∙ ap (address sid) e

-- The line that `AttachRaw` writes addresses, for the daemon, the same session of the same namespace:
-- the namespace that `ns` picks and the session's id, where neither is empty or has a space at an end
-- and the namespace has no tab.
pub handshake-raw_line :
    (default session : Bytes) (spaces : List Bytes)
    → IsTrimmed (ns default spaces)
    → has_tab (ns default spaces) ≡ false
    → IsTrimmed session
    → handshake (raw_line default session spaces) ≡ (ns default spaces, session)
unfolding raw_line
handshake-raw_line default session spaces space no_tab id =
    let space_text = ns default spaces in
    handshake-cut (raw_line default session spaces) (space_text ++ 9 ∷ session) space_text session
      (trim_space-line space_text session space id) (cut-tab space_text session no_tab)
    ∙ ap₂ (λ (a b : Bytes). (a, b)) (trim_space-same space_text space) (trim_space-same session id)
