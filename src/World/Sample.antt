-- ===== src/World/Sample.antt =====
-- A small world for the tests: three sessions on a plain terminal, two of them registered, and two
-- connections, one of which is attached and open, the other shut down.
use pupptyeer.Prelude.{
  ℕ, zero, suc, refl, true, false, inr, Bytes, List, [], ◌∷◌, codes, text_eq, arith,
}
use pupptyeer.Prelude.Int.{pos}
use pupptyeer.Prelude.Assoc.{lookup, insert}
use pupptyeer.Core.Sample.{glass, running}
use pupptyeer.Core.Lifecycle.{IsCoherent}
use pupptyeer.World.{
  Host, World, Sess, Conn, RawConn, SessKey, SessKey_eq, Winsize, default_namespace, add_session,
}
use pupptyeer.World.Registry.{IsKeyed, add_session-IsKeyed}

abbrev pub host : Host
host = record {
  emulator = glass;
  encode = λ bs. bs;
  decode = λ bs. inr bs;
  format_time = λ t. codes "2026-01-01T00:00:00Z";
  conn_picks = λ c. true ∷ false ∷ [];
  raw_picks = λ r. [];
}

abbrev pub pane_key : SessKey
pane_key = record { ns = default_namespace; id = codes "a" }

abbrev pub other_key : SessKey
other_key = record { ns = codes "x"; id = codes "a" }

abbrev pub viewer_size : Winsize
viewer_size = record { cols = pos 80; rows = pos 24 }

abbrev session_at : SessKey → List (ℕ × Winsize) → Bytes → Sess host
session_at k attachments scrollback = record {
  id = k.id;
  namespace = k.ns;
  command = codes "sh";
  args = [];
  cwd = [];
  created = pos 0;
  core = record running { ring = record { buf = scrollback; max = 8; pos = 0; full = false } };
  attachments = attachments;
  raw_subs = [];
}

abbrev viewer : Conn
viewer = record {
  out = [];
  done = false;
  dropping = false;
  picks = true ∷ [];
  attached = (pane_key, true) ∷ [];
}

abbrev gone_viewer : Conn
gone_viewer = record { out = []; done = true; dropping = false; picks = true ∷ []; attached = [] }

abbrev raw_client : RawConn
raw_client = record { out = []; done = false; dropping = false; picks = [] }

-- Session 0 is attached, session 1 has its id in another namespace, all later ones have its key.
abbrev sessions_by_number : ℕ → Sess host
sessions_by_number zero = session_at pane_key ((0, viewer_size) ∷ []) (codes "hello")
sessions_by_number (suc zero) = session_at other_key [] []
sessions_by_number (suc (suc n)) = session_at pane_key [] []

abbrev conns_by_number : ℕ → Conn
conns_by_number zero = viewer
conns_by_number (suc n) = gone_viewer

abbrev pub empty_world : World host
empty_world = record {
  conns = (0, true) ∷ (1, true) ∷ [];
  sessions = [];
  conn_at = conns_by_number;
  raw_at = λ r. raw_client;
  sess_at = sessions_by_number;
  next_conn = 2;
  next_raw = 0;
  next_sess = 3;
}

abbrev pub world : World host
world = record empty_world { sessions = (pane_key, 0) ∷ (other_key, 1) ∷ [] }

pub empty_world-IsKeyed : IsKeyed host empty_world
unfolding lookup
empty_world-IsKeyed = record { keyed = λ k r e. cc }

pub world-IsKeyed : IsKeyed host world
unfolding add_session lookup insert text_eq
world-IsKeyed =
    add_session-IsKeyed host (add_session host empty_world 0).0 1 (omega arith)
      (add_session-IsKeyed host empty_world 0 (omega arith) empty_world-IsKeyed)

pub world-IsCoherent : (q : ℕ) → IsCoherent host.emulator (world.sess_at q).core
world-IsCoherent zero = record { ended = refl; gone = refl }
world-IsCoherent (suc zero) = record { ended = refl; gone = refl }
world-IsCoherent (suc (suc n)) = record { ended = refl; gone = refl }
