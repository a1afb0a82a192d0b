-- ===== src/Mcp/Auth/Gates.antt =====
-- mcp/auth.go: which requests pass which gate.
use pupptyeer.Prelude.{
  ◌≡◌, ◌⊎◌, inl, inr, refl, sym, ap, ◌∙◌, Bool, true, false, Option, none, some, Bytes, [], ◌∷◌,
  ◌++◌, ◌||◌, codes, if◌then◌else◌, text_eq, text_eq_refl, text_eq_sound, length, drop,
  Option-cases, arith,
}
use pupptyeer.Prelude.Strings.{is_nil, trim_space, to_lower}
use pupptyeer.Mcp.Auth.{
  HttpConfig, passed, bearer_token, is_loopback_addr, trim_slashes, protected_resource_path, Gate,
  open_gate, token_gate, oauth_gate, new_auth_middleware, fields, contains, Scopes, Verified, valid,
  insufficient_scope, invalid, Oidc, ensure, check_scope, verify, answer_verified, serve,
  unauthorized, forbidden,
}

module _ (host_of : Bytes → Option Bytes) (loopback : Bytes → Option Bool) (cfg : HttpConfig) where
  abbrev pub IsOpen : Gate → Type 0
  IsOpen gate =
      (gate ≡ open_gate)
      × (text_eq cfg.auth (codes "none") ≡ true)
      × ((cfg.allow_remote ≡ true) ⊎ (is_loopback_addr host_of loopback cfg.addr ≡ true))

  abbrev pub IsToken : Gate → Type 0
  IsToken gate =
      (gate ≡ token_gate cfg.token)
      × (text_eq cfg.auth (codes "token") ≡ true)
      × (is_nil cfg.token ≡ false)

  abbrev pub IsOauth : Gate → Type 0
  IsOauth gate =
      (gate
        ≡ oauth_gate cfg.issuer cfg.audience cfg.scope
            (trim_slashes cfg.resource_url ++ protected_resource_path))
      × (text_eq cfg.auth (codes "oauth") ≡ true)

  middleware-cases :
      (gate : Gate)
      → new_auth_middleware host_of loopback cfg ≡ inr gate
      → IsOpen gate ⊎ IsToken gate ⊎ IsOauth gate
  unfolding new_auth_middleware
  middleware-cases gate h = ground (arith, h)

module _ (O : Oidc) where
  -- The token was verified for the issuer and the audience, and has the scope if one is asked for.
  abbrev pub IsGranted : Bytes → Option O.V → Bytes → Type 0
  IsGranted scope verifier raw =
      (v : O.V) × (t : O.T) × (verifier ≡ some v)
      × (O.verify v raw ≡ some t)
      × ((is_nil scope ≡ true)
          ⊎ ((s : Scopes) × (O.claims t ≡ some s)
              × (contains scope (fields s.scope ++ s.scp) ≡ true)))

  check_scope-valid :
      (scope : Bytes) (t : O.T)
      → check_scope O scope t ≡ valid
      → (is_nil scope ≡ true)
        ⊎ ((s : Scopes) × (O.claims t ≡ some s) × (contains scope (fields s.scope ++ s.scp) ≡ true))
  unfolding check_scope
  check_scope-valid scope t h = ground arith

  verify-valid :
      (scope : Bytes) (verifier : Option O.V) (raw : Bytes)
      → verify O scope verifier raw ≡ valid
      → IsGranted scope verifier raw
  unfolding verify
  verify-valid scope none raw h = absurd cc
  verify-valid scope (some v) raw h = elim (Option-cases (O.verify v raw)) [
    | inl e ↦ absurd (ground (arith, h, e))
    | inr (t, e) ↦ (v, t, refl, e, check_scope-valid scope t (ground (arith, h, e)))
  ]

  answer_verified-passed :
      (quote : Bytes → Bytes) (meta : Bytes) (r : Verified)
      → answer_verified O quote meta r ≡ passed
      → r ≡ valid
  unfolding answer_verified unauthorized forbidden
  answer_verified-passed quote meta valid h = refl
  answer_verified-passed quote meta insufficient_scope h = absurd cc
  answer_verified-passed quote meta invalid h = absurd cc

  module _ (host_of : Bytes → Option Bytes) (loopback : Bytes → Option Bool)
      (quote : Bytes → Bytes) where
    -- The text is the host of the address, or the address, where it has no port.
    abbrev pub IsHost : Bytes → Bytes → Type 0
    IsHost addr host = (host_of addr ≡ some host) ⊎ ((host_of addr ≡ none) × (host ≡ addr))

    -- The address names no host, which listens on all of them, or localhost, or a loopback address.
    abbrev pub IsLocal : Bytes → Type 0
    IsLocal addr =
        (host : Bytes) × IsHost addr host
        × ((host ≡ []) ⊎ (host ≡ codes "localhost") ⊎ (loopback host ≡ some true))

    is_loopback_addr-IsLocal :
        (addr : Bytes) → is_loopback_addr host_of loopback addr ≡ true → IsLocal addr
    unfolding is_loopback_addr
    is_loopback_addr-IsLocal addr h = of_host (host_of addr) refl h
      where
        of_text :
            (host : Bytes)
            → (if is_nil host || text_eq host (codes "localhost")
                then true
                else elim (loopback host) as (λ x. Bool) [ none ↦ false | some b ↦ b ])
              ≡ true
            → (host ≡ []) ⊎ (host ≡ codes "localhost") ⊎ (loopback host ≡ some true)
        of_text [] e = inl refl
        of_text (b ∷ host) e = ground (arith, e, text_eq_sound (b ∷ host) (codes "localhost"))

        of_host :
            (o : Option Bytes)
            → host_of addr ≡ o
            → (let host : Bytes = elim o [ none ↦ addr | some k ↦ k ] in
                if is_nil host || text_eq host (codes "localhost")
                then true
                else elim (loopback host) as (λ x. Bool) [ none ↦ false | some b ↦ b ])
              ≡ true
            → IsLocal addr
        of_host none e g = (addr, inr (e, refl), of_text addr g)
        of_host (some host) e g = (host, inl e, of_text host g)

    -- The conditions under which a request passes.
    abbrev pub MayPass : HttpConfig → Option O.V → (Bytes → Bytes → Option O.V) → Bytes → Type 0
    MayPass cfg kept found header =
        ((text_eq cfg.auth (codes "none") ≡ true) × ((cfg.allow_remote ≡ true) ⊎ IsLocal cfg.addr))
        ⊎ ((text_eq cfg.auth (codes "token") ≡ true)
            × (bearer_token header ≡ cfg.token)
            × (is_nil cfg.token ≡ false))
        ⊎ ((text_eq cfg.auth (codes "oauth") ≡ true)
            × IsGranted cfg.scope (ensure O kept (found cfg.issuer cfg.audience))
                (bearer_token header))

    token-passed :
        (want : Bytes) (kept : Option O.V) (found : Bytes → Bytes → Option O.V) (header : Bytes)
        → (serve O quote (token_gate want) kept found header).1 ≡ passed
        → bearer_token header ≡ want
    unfolding serve unauthorized
    token-passed want kept found header h =
        ground (arith, h, text_eq_sound (bearer_token header) want)

    oauth-passed :
        (issuer audience scope meta : Bytes) (kept : Option O.V)
        (found : Bytes → Bytes → Option O.V) (header : Bytes)
        → (serve O quote (oauth_gate issuer audience scope meta) kept found header).1 ≡ passed
        → IsGranted scope (ensure O kept (found issuer audience)) (bearer_token header)
    unfolding serve unauthorized
    oauth-passed issuer audience scope meta kept found header h =
        let verifier = ensure O kept (found issuer audience) in
        let outcome = verify O scope verifier (bearer_token header) in
        verify-valid scope verifier (bearer_token header)
          (answer_verified-passed quote meta outcome (ground (arith, h)))

    -- A request passes the gate of a configuration only under "none", where remote access was allowed or
    -- the address names no host at all, localhost, or a loopback address; under "token" with exactly the
    -- token, which is not empty; or under "oauth" with a token that the verifier of the issuer and the
    -- audience accepted and that carries the scope, if one is asked for.
    pub gate_passes :
        (cfg : HttpConfig) (gate : Gate) (kept : Option O.V) (found : Bytes → Bytes → Option O.V)
        (header : Bytes)
        → new_auth_middleware host_of loopback cfg ≡ inr gate
        → (serve O quote gate kept found header).1 ≡ passed
        → MayPass cfg kept found header
    gate_passes cfg gate kept found header built through =
        elim (middleware-cases host_of loopback cfg gate built) [
          | inl (_, mode, inl remote) ↦ inl (mode, inl remote)
          | inl (_, mode, inr own) ↦ inl (mode, inr (is_loopback_addr-IsLocal cfg.addr own))
          | inr (inl (same, mode, some_token)) ↦ inr (
              inl (
                mode,
                token-passed cfg.token kept found header
                    (sym (ap (λ (g : Gate). (serve O quote g kept found header).1) same) ∙ through),
                some_token,
              ))
          | inr (inr (same, mode)) ↦ inr (
              inr (
                mode,
                oauth-passed cfg.issuer cfg.audience cfg.scope _ kept found header
                    (sym (ap (λ (g : Gate). (serve O quote g kept found header).1) same) ∙ through),
              ))
        ]

drop-append : (s t : Bytes) → drop (length s) (s ++ t) ≡ t
drop-append [] t = refl
drop-append (b ∷ s) t = drop-append s t

bearer_token-header :
    (token : Bytes)
    → is_nil token ≡ false
    → bearer_token (codes "Bearer " ++ token) ≡ trim_space token
unfolding bearer_token to_lower text_eq
bearer_token-header [] h = cc
bearer_token-header (b ∷ token) h = ground arith

-- A configured token that has no space at an end is let through when a request bears it.
pub token_passes :
    (O : Oidc) (host_of : Bytes → Option Bytes) (loopback : Bytes → Option Bool)
    (quote : Bytes → Bytes) (cfg : HttpConfig) (kept : Option O.V)
    (found : Bytes → Bytes → Option O.V)
    → cfg.auth ≡ codes "token"
    → is_nil cfg.token ≡ false
    → trim_space cfg.token ≡ cfg.token
    → (gate : Gate) × (new_auth_middleware host_of loopback cfg ≡ inr gate)
      × ((serve O quote gate kept found (codes "Bearer " ++ cfg.token)).1 ≡ passed)
unfolding new_auth_middleware serve text_eq
token_passes O host_of loopback quote cfg kept found mode full trimmed =
    rw (mode, full)
      (
        token_gate cfg.token,
        refl,
        rw (bearer_token-header cfg.token full, trimmed, full, text_eq_refl cfg.token) refl,
      )
