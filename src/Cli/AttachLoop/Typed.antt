-- ===== src/Cli/AttachLoop/Typed.antt =====
-- cmd/pupptyeer/ctl.go: what `ctl attach` forwards of the standard input, whatever else it meets.
use pupptyeer.Prelude.{
  ℕ, ◌≡◌, refl, sym, subst, ap, ◌∙◌, ◌⊎◌, Bool, true, false, not, ◌&&◌, Option, none, some, Bytes,
  List, [], ◌∷◌, ◌++◌, append_assoc, append-nil, arith, if◌then◌else◌, Bool-cases,
}
use pupptyeer.Prelude.Int.{ℤ}
use pupptyeer.Prelude.Strings.{is_nil}
use pupptyeer.Client.Wire.{Message}
use pupptyeer.Cli.Matcher.{Matcher, feed}
use pupptyeer.Cli.Matcher.Reads.{feed-append, feed-nil}
use pupptyeer.Cli.AttachLoop.{
  Event, output, exit, session_closed, scrollback_end, other, event_of, Action, stdout, note_exited,
  note_closed, note_detached, write_pane, resize, Round, show_event, show_message, panes, votes_of,
  Terminal, Happening, read, detached, interrupt, winch, arrival, no_more, forward, looped, happen,
  and_then, interact,
}

-- The bytes of the panes written, and those read.
unfoldable pub written : List Action → Bytes
written [] = []
written (write_pane bs ∷ acts) = bs ++ written acts
written (other_act ∷ acts) = written acts

unfoldable pub typed : List Happening → Bytes
typed [] = []
typed (read bs failed unsent ∷ hs) = bs ++ typed hs
typed (h ∷ hs) = typed hs

written-append : (xs ys : List Action) → written (xs ++ ys) ≡ written xs ++ written ys
unfolding written
written-append [] ys = refl
written-append (write_pane bs ∷ xs) ys =
    ap (λ zs. bs ++ zs) (written-append xs ys) ∙ sym (append_assoc bs (written xs) (written ys))
written-append (stdout bs ∷ xs) ys = written-append xs ys
written-append (note_exited code ∷ xs) ys = written-append xs ys
written-append (note_closed ∷ xs) ys = written-append xs ys
written-append (note_detached ∷ xs) ys = written-append xs ys
written-append (resize c r ∷ xs) ys = written-append xs ys

written-panes : (bs : Bytes) → written (panes bs) ≡ bs
unfolding written
written-panes [] = refl
written-panes (b ∷ bs) = append-nil (b ∷ bs)

-- What is written of the input `bs`: what `feed` lets through while the goroutine reads, else nothing,
-- and there is no input.
abbrev Spec : Bool → Matcher → Bytes → Bytes → Type 0
Spec true m bs ws = ws ≡ (feed m bs).out
Spec false m bs ws = (ws ≡ []) × (bs ≡ [])

fed-Spec :
    (m : Matcher) (bs xs ws : Bytes) (going : Bool)
    → (going ≡ true → (feed m bs).detached ≡ false)
    → Spec going (feed m bs).matcher xs ws
    → Spec true m (bs ++ xs) ((feed m bs).out ++ ws)
fed-Spec m bs xs ws true k h = rw (feed-append m bs xs, k refl) (ap (λ ys. (feed m bs).out ++ ys) h)
fed-Spec m bs xs ws false k (no_more_written, no_more_read) =
    rw (no_more_written, no_more_read, append-nil bs) (append-nil (feed m bs).out)

-- Whether the goroutine reads on.
abbrev goes_on : Bytes → Bool → Bool → Bool → Bool
goes_on out complete failed unsent =
    if not (is_nil out) && unsent then false else not complete && not failed

goes_on-incomplete :
    (out : Bytes) (complete failed unsent : Bool)
    → goes_on out complete failed unsent ≡ true
    → complete ≡ false
goes_on-incomplete out complete failed unsent h = ground (arith, h)

not_cases : (out : Bytes) → (is_nil out ≡ true) ⊎ (is_nil out ≡ false)
not_cases out = Bool-cases (is_nil out)

forward-some :
    (m : Matcher) (b : ℕ) (bs : Bytes) (failed unsent : Bool)
    → let fed = feed m (b ∷ bs) in
      forward m (b ∷ bs) failed unsent
      ≡ (fed.matcher, goes_on fed.out fed.detached failed unsent, panes fed.out)
unfolding forward
forward-some m b bs failed unsent = ground (arith, not_cases (feed m (b ∷ bs)).out)

forward-Spec :
    (m : Matcher) (bs xs ws : Bytes) (failed unsent : Bool)
    → let (m', going, acts) = forward m bs failed unsent in
      Spec going m' xs ws → Spec true m (bs ++ xs) (written acts ++ ws)
unfolding forward written
forward-Spec m [] xs ws true unsent =
    λ (no_more_written, no_more_read). rw (no_more_written, no_more_read, feed-nil m) refl
forward-Spec m [] xs ws false unsent = λ h. h
forward-Spec m (b ∷ bs) xs ws failed unsent =
    let fed = feed m (b ∷ bs) in
    rw (forward-some m b bs failed unsent) λ h. rw (written-panes fed.out) (
      fed-Spec m (b ∷ bs) xs ws (goes_on fed.out fed.detached failed unsent)
        (goes_on-incomplete fed.out fed.detached failed unsent) h)

module _ (bytes_of : Bytes → Bytes) (ns session : Bytes) where
  abbrev Runs : Terminal → List Happening → Terminal × List Action → Type 0
  Runs t hs r = interact bytes_of ns session t hs ≡ some r

  -- The messages of the session and the loop's own rounds write no input.
  show_event-written :
      (e : Event) (m : Message) → written (show_event bytes_of ns session e m).0 ≡ []
  unfolding written show_event
  show_event-written output m = refl
  show_event-written exit m = of_code m.exit_code
    where
      of_code :
          (c : Option ℤ)
          → written
              (elim c as (λ x. Round) [
                | none ↦ ([], none)
                | some code ↦ (note_exited code ∷ [], none)
              ]).0
            ≡ []
      of_code none = refl
      of_code (some code) = refl
  show_event-written session_closed m = refl
  show_event-written scrollback_end m = refl
  show_event-written other m = refl

  show_message-written : (m : Message) → written (show_message bytes_of ns session m).0 ≡ []
  unfolding show_message written
  show_message-written m = ground (arith, show_event-written (event_of m.type) m)

  votes_of-written : (v : Option (ℤ × ℤ)) → written (votes_of v) ≡ []
  unfolding written votes_of
  votes_of-written none = refl
  votes_of-written (some (cols, rows)) = refl

  looped-written :
      (t t' : Terminal) (round : Round) (acts : List Action)
      → written round.0 ≡ []
      → looped bytes_of ns session t round ≡ some (t', acts)
      → (written acts ≡ []) × (t'.reading ≡ t.reading) × (t'.matcher ≡ t.matcher)
  looped-written t t' (told, leaving) acts quiet e = ground (arith, e, quiet)

  -- One happening, before a run that behaves.
  abbrev Behaves : Terminal → List Happening → List Action → Type 0
  Behaves t hs acts = Spec t.reading t.matcher (typed hs) (written acts)

  quiet-Behaves :
      (t t' : Terminal) (acts more : List Action) (hs : List Happening)
      → (written acts ≡ []) × (t'.reading ≡ t.reading) × (t'.matcher ≡ t.matcher)
      → Behaves t' hs more
      → Behaves t hs (acts ++ more)
  quiet-Behaves t t' acts more hs (quiet, same, kept) ok =
      rw (sym same, sym kept, written-append acts more, quiet) ok

  abbrev if_reading : Bool → Terminal → List Action → Option (Terminal × List Action)
  if_reading reading t acts = if reading then some (t, acts) else none

  read-Behaves :
      (reading going : Bool) (m m' : Matcher) (t t' : Terminal) (bs : Bytes)
      (acts acts' more : List Action) (hs : List Happening)
      → (Spec going m' (typed hs) (written more)
          → Spec true m (bs ++ typed hs) (written acts' ++ written more))
      → if_reading reading (record t { matcher = m'; reading = going }) acts' ≡ some (t', acts)
      → Behaves t' hs more
      → Spec reading m (bs ++ typed hs) (written (acts ++ more))
  read-Behaves true going m m' t t' bs acts acts' more hs spec e ok =
      ground (arith, written-append acts' more)
  read-Behaves false going m m' t t' bs acts acts' more hs spec e ok = absurd (ground (arith, e))

  if_done :
      (reading : Bool) (r : Option (Terminal × List Action)) (x : Terminal × List Action)
      → (if reading then none else r) ≡ some x
      → r ≡ some x
  if_done true r x e = absurd (ground (arith, e))
  if_done false r x e = e

  happen-Behaves :
      (t t' : Terminal) (h : Happening) (acts more : List Action) (hs : List Happening)
      → happen bytes_of ns session t h ≡ some (t', acts)
      → Behaves t' hs more
      → Behaves t (h ∷ hs) (acts ++ more)
  unfolding happen typed written
  happen-Behaves t t' (read bs failed unsent) acts more hs e ok =
      let (m', going, acts') = forward t.matcher bs failed unsent in
      read-Behaves t.reading going t.matcher m' t t' bs acts acts' more hs
        (forward-Spec t.matcher bs (typed hs) (written more) failed unsent) e ok
  happen-Behaves t t' detached acts more hs e ok = ground arith
  happen-Behaves t t' interrupt acts more hs e ok = ground arith
  happen-Behaves t t' (winch size) acts more hs e ok =
      quiet-Behaves t t' acts more hs
        (looped-written t t' (votes_of size, none) acts (votes_of-written size) e) ok
  happen-Behaves t t' (arrival m) acts more hs e ok =
      quiet-Behaves t t' acts more hs
        (looped-written t t' (show_message bytes_of ns session m) acts (show_message-written m) e)
        ok
  happen-Behaves t t' no_more acts more hs e ok = ground arith

  Spec-none : (going : Bool) (m : Matcher) → Spec going m [] []
  Spec-none true m = rw (feed-nil m) refl
  Spec-none false m = (refl, refl)

  interact-Behaves :
      (t t' : Terminal) (hs : List Happening) (acts : List Action)
      → Runs t hs (t', acts)
      → Behaves t hs acts
  unfolding interact typed written
  interact-Behaves t t' [] acts e =
      let none_done : acts ≡ [] = ground (arith, e) in rw none_done (Spec-none t.reading t.matcher)
  interact-Behaves t t' (h ∷ hs) acts e =
      of_first (happen bytes_of ns session t h) (λ t1 t2 more. interact-Behaves t1 t2 hs more) refl
        e
    where
      of_rest :
          (t1 : Terminal) (acts1 : List Action) (r : Option (Terminal × List Action))
          → ((t2 : Terminal) (more : List Action) → r ≡ some (t2, more) → Behaves t1 hs more)
          → happen bytes_of ns session t h ≡ some (t1, acts1)
          → and_then bytes_of ns session acts1 r ≡ some (t', acts)
          → Behaves t (h ∷ hs) acts
      of_rest t1 acts1 none ih f k = absurd (ground (arith, k))
      of_rest t1 acts1 (some (t2, more)) ih f k =
          ground (arith, happen-Behaves t t1 h acts1 more hs f (ih t2 more refl))

      of_first :
          (r : Option (Terminal × List Action))
          → ((t1 t2 : Terminal) (more : List Action) → Runs t1 hs (t2, more) → Behaves t1 hs more)
          → happen bytes_of ns session t h ≡ r
          → (elim r as (λ x. Option (Terminal × List Action)) [
            | none ↦ none
            | some (t1, acts1) ↦
                and_then bytes_of ns session acts1 (interact bytes_of ns session t1 hs)
          ])
            ≡ some (t', acts)
          → Behaves t (h ∷ hs) acts
      of_first none ih f k = absurd (ground (arith, k))
      of_first (some (t1, acts1)) ih f k =
          of_rest t1 acts1 (interact bytes_of ns session t1 hs) (ih t1) f k

  -- However its goroutine and its loop take turns, and whatever else they meet (events, signals, new
  -- sizes, failed reads and writes), `ctl attach` passes to `WritePane`, in order, exactly the bytes that
  -- the matcher lets through of all the input read, taken as one: how the reads cut it does not matter.
  pub interact-written :
      (t t' : Terminal) (hs : List Happening) (acts : List Action)
      → t.reading ≡ true
      → interact bytes_of ns session t hs ≡ some (t', acts)
      → written acts ≡ (feed t.matcher (typed hs)).out
  interact-written t t' hs acts on e =
      subst (λ going. Spec going t.matcher (typed hs) (written acts)) on
        (interact-Behaves t t' hs acts e)
