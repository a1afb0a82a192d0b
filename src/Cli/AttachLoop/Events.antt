-- ===== src/Cli/AttachLoop/Events.antt =====
-- cmd/pupptyeer/ctl.go: the daemon's events of a session, as the loops of `ctl` recognise them.
use pupptyeer.Prelude.{◌≡◌, refl, true, text_eq, text_eq_refl}
use pupptyeer.Protocol
use pupptyeer.Protocol.{type_output, type_scrollback_end}
use pupptyeer.World.{Host, Sess}
use pupptyeer.Client.Wire.Parity.{from_message}
use pupptyeer.Cli.AttachLoop.{output, scrollback_end, event_of, is_addressed}

pub event_of-output : event_of type_output ≡ output
unfolding event_of text_eq
event_of-output = refl

pub event_of-end : event_of type_scrollback_end ≡ scrollback_end
unfolding event_of text_eq
event_of-end = refl

module _ (H : Host) where
  pub addressed :
      (s : Sess H) (m : Protocol.Message)
      → m.session ≡ s.id
      → m.namespace ≡ s.namespace
      → is_addressed s.namespace s.id (from_message m) ≡ true
  unfolding is_addressed from_message
  addressed s m e g = rw (e, g, text_eq_refl s.id, text_eq_refl s.namespace) refl
