-- ===== src/Mcp/Auth.antt =====
-- mcp/auth.go: the gate before the bridge's HTTP endpoint. From outside come `host_of` (the host of
-- net.SplitHostPort, or its error), `loopback` (net.ParseIP, and whether the address is one of this
-- host), `quote` (`%q`), and go-oidc: what discovery gives for an issuer and an audience, and what the
-- verifier `V` says of a token, its claims `C`.
pub mod Gates
use pupptyeer.Prelude.{
  ℕ, ◌≡◌, ◌⊎◌, inl, inr, refl, Bool, true, false, ◌&&◌, ◌||◌, not, Option, none, some, Bytes, List,
  [], ◌∷◌, ◌++◌, codes, text_eq, length, ltb, take, drop, arith, if◌then◌else◌,
}
use pupptyeer.Prelude.Strings.{is_nil, is_space, to_lower, trim_space, has_prefix}

pub record HttpConfig : Type 0 where
  pub addr : Bytes
  pub auth : Bytes
  pub token : Bytes
  pub issuer : Bytes
  pub audience : Bytes
  pub scope : Bytes
  pub resource_url : Bytes
  pub allow_remote : Bool

-- The outcome of a request: handed on, or refused with a status, a challenge and a text.
pub data Verdict : Type 0 where
  passed : Verdict
  refused : ℕ → Bytes → Bytes → Verdict

-- `bearerToken`, with the value of the Authorization header, which is empty where there is none.
unfoldable pub bearer_token : Bytes → Bytes
bearer_token h =
    if ltb 7 (length h) && text_eq (to_lower (take 7 h)) (codes "bearer ")
    then trim_space (drop 7 h)
    else []

module _ (quote : Bytes → Bytes) where
  unfoldable pub unauthorized : Bytes → Bytes → Verdict
  unauthorized meta desc =
      refused 401
        (if is_nil meta then codes "Bearer" else codes "Bearer resource_metadata=" ++ quote meta)
        desc

  unfoldable pub forbidden : Bytes → Verdict
  forbidden meta =
      refused 403
        (codes "Bearer error="
          ++ quote (codes "insufficient_scope")
          ++ codes ", resource_metadata="
          ++ quote meta)
        (codes "insufficient_scope")

-- `isLoopbackAddr`.
unfoldable pub is_loopback_addr : (Bytes → Option Bytes) → (Bytes → Option Bool) → Bytes → Bool
is_loopback_addr host_of loopback addr =
    let host : Bytes = elim (host_of addr) [ none ↦ addr | some h ↦ h ] in
    if is_nil host || text_eq host (codes "localhost")
    then true
    else elim (loopback host) [ none ↦ false | some b ↦ b ]

-- `strings.TrimRight(s, "/")`.
unfoldable pub trim_slashes : Bytes → Bytes
trim_slashes [] = []
trim_slashes (b ∷ s) =
    let rest = trim_slashes s in
    if is_nil rest && text_eq (b ∷ []) (codes "/") then [] else b ∷ rest

abbrev protected_resource_path : Bytes
protected_resource_path = codes "/.well-known/oauth-protected-resource"

-- The middleware that `newAuthMiddleware` returns.
pub data Gate : Type 0 where
  open_gate : Gate
  token_gate : Bytes → Gate
  oauth_gate : Bytes → Bytes → Bytes → Bytes → Gate

-- `newAuthMiddleware`; a misconfiguration is the kind of error, not its text.
pub data Misconfigured : Type 0 where
  not_loopback no_token no_issuer unknown_mode : Misconfigured

module _ (host_of : Bytes → Option Bytes) (loopback : Bytes → Option Bool) where
  unfoldable pub new_auth_middleware : HttpConfig → Misconfigured ⊎ Gate
  new_auth_middleware cfg =
      if text_eq cfg.auth (codes "none")
      then (if not cfg.allow_remote && not (is_loopback_addr host_of loopback cfg.addr)
          then inl not_loopback
          else inr open_gate)
      else (if text_eq cfg.auth (codes "token")
          then (if is_nil cfg.token then inl no_token else inr (token_gate cfg.token))
          else (if text_eq cfg.auth (codes "oauth")
              then (if is_nil cfg.issuer || is_nil cfg.audience
                  then inl no_issuer
                  else inr (
                      oauth_gate cfg.issuer cfg.audience cfg.scope
                        (trim_slashes cfg.resource_url ++ protected_resource_path)))
              else inl unknown_mode))

-- `strings.Fields`.
unfoldable pub fields : Bytes → List Bytes
fields [] = []
fields (b ∷ s) =
    let rest = fields s in
    if is_space b
    then rest
    else (if starts_field s
        then elim rest [ [] ↦ (b ∷ []) ∷ [] | f ∷ fs ↦ (b ∷ f) ∷ fs ]
        else (b ∷ []) ∷ rest)
  where
    starts_field : Bytes → Bool
    starts_field [] = false
    starts_field (b ∷ s) = not (is_space b)

unfoldable pub contains : Bytes → List Bytes → Bool
contains s [] = false
contains s (x ∷ xs) = text_eq x s || contains s xs

-- The claims `scope` and `scp`.
pub record Scopes : Type 0 where
  pub scope : Bytes
  pub scp : List Bytes

-- The results of `verify`.
pub data Verified : Type 0 where
  valid insufficient_scope invalid : Verified

-- go-oidc: `NewProvider` with `Verifier`, `Verify` with the check of signature, issuer, audience and
-- expiry, and `Claims`.
pub record Oidc : Type 1 where
  pub V : Type 0
  pub T : Type 0
  pub verify : V → Bytes → Option T
  pub claims : T → Option Scopes

module _ (O : Oidc) where
  -- `ensure`: the verifier is kept once discovery has succeeded; `found` is what discovery would give.
  unfoldable pub ensure : Option O.V → Option O.V → Option O.V
  ensure (some v) found = some v
  ensure none found = found

  unfoldable pub check_scope : Bytes → O.T → Verified
  check_scope scope t = if is_nil scope then valid else elim (O.claims t) [
    | none ↦ invalid
    | some s ↦ if contains scope (fields s.scope ++ s.scp) then valid else insufficient_scope
  ]

  unfoldable pub verify : Bytes → Option O.V → Bytes → Verified
  verify scope none raw = invalid
  verify scope (some v) raw = elim (O.verify v raw) [
    | none ↦ invalid
    | some t ↦ check_scope scope t
  ]

  -- A request at the gate: the verifier that is kept behind it, and the outcome.
  unfoldable pub answer_verified : (Bytes → Bytes) → Bytes → Verified → Verdict
  answer_verified quote meta valid = passed
  answer_verified quote meta insufficient_scope = forbidden quote meta
  answer_verified quote meta invalid = unauthorized quote meta (codes "invalid token")

  unfoldable pub serve :
      (Bytes → Bytes)
      → Gate
      → Option O.V
      → (Bytes → Bytes → Option O.V)
      → Bytes
      → Option O.V × Verdict
  serve quote open_gate kept found header = (kept, passed)
  serve quote (token_gate want) kept found header =
      let got = bearer_token header in
      (
        kept,
        if is_nil got || not (text_eq got want)
            then unauthorized quote [] (codes "invalid or missing bearer token")
            else passed,
      )
  serve quote (oauth_gate issuer audience scope meta) kept found header =
      let raw = bearer_token header in
      if is_nil raw
      then (kept, unauthorized quote meta (codes "missing bearer token"))
      else (let v = ensure kept (found issuer audience) in
          (v, answer_verified quote meta (verify scope v raw)))
