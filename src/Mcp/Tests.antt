-- ===== src/Mcp/Tests.antt =====
-- The theorems on the bridge's gate at concrete inputs.
use pupptyeer.Prelude.{
  ◌≡◌, refl, Bool, true, false, Option, none, some, Bytes, [], inr, codes, text_eq,
}
use pupptyeer.Prelude.Strings.{trim_space, trim_left, trim_right, to_lower}
use pupptyeer.Mcp.Auth.{
  HttpConfig, passed, Gate, oauth_gate, trim_slashes, new_auth_middleware, Oidc, serve,
  bearer_token, ensure, verify, check_scope, fields, contains, answer_verified,
}
use pupptyeer.Prelude.Int.{pos}
use pupptyeer.Mcp.Tools.{NewSession}
use pupptyeer.Mcp.Auth.Gates.{MayPass, gate_passes}

abbrev own_host : Bytes → Option Bytes
own_host addr = some (codes "127.0.0.1")

abbrev own_address : Bytes → Option Bool
own_address host = some true

abbrev quoted : Bytes → Bytes
quoted s = s

-- A verifier that accepts every token, and says that its scope is the token itself.
abbrev oidc : Oidc
oidc = record {
  V = Bytes;
  T = Bytes;
  verify = λ v raw. some raw;
  claims = λ t. some (record { scope = t; scp = [] });
}

abbrev found : Bytes → Bytes → Option Bytes
found issuer audience = some issuer

abbrev config : HttpConfig
config = record {
  addr = codes "127.0.0.1:80";
  auth = codes "oauth";
  token = codes "t";
  issuer = codes "i";
  audience = codes "a";
  scope = codes "s";
  resource_url = codes "r/";
  allow_remote = false;
}

abbrev header : Bytes
header = codes "Bearer x s"

abbrev gate : Gate
gate =
    oauth_gate (codes "i") (codes "a") (codes "s") (codes "r/.well-known/oauth-protected-resource")

gate-built : new_auth_middleware own_host own_address config ≡ inr gate
unfolding new_auth_middleware text_eq trim_slashes
gate-built = refl

gate-passed : (serve oidc quoted gate none found header).1 ≡ passed
unfolding serve bearer_token to_lower text_eq trim_space trim_left trim_right ensure verify
    check_scope fields contains answer_verified
gate-passed = refl

gate_passes_example : MayPass oidc own_host own_address quoted config none found header
gate_passes_example =
    gate_passes oidc own_host own_address quoted config gate none found header gate-built
      gate-passed

-- A call of `new_session` with an id.
abbrev arguments : NewSession
arguments = record {
  command = codes "sh";
  args = [];
  cwd = [];
  env = [];
  cols = pos 0;
  rows = pos 40;
  raw = true;
  requested_id = codes "a";
  get_or_create = true;
  namespace = [];
}
