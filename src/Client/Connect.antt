-- ===== src/Client/Connect.antt =====
-- clients/go/client.go: `Connect` and its options. `dial` is the error of `Dial` for a path, if there is
-- one, and `default_socket` is DefaultSocketPath.
use pupptyeer.Prelude.{
  ◌≡◌, ◌⊎◌, inl, inr, false, Option, none, some, Bytes, List, [], ◌∷◌, ◌++◌, codes, Option-cases,
  arith, if◌then◌else◌,
}
use pupptyeer.Prelude.Strings.{is_nil}
use pupptyeer.Client.{Client, dialed}

pub data ConnectOption : Type 0 where
  with_socket : Bytes → ConnectOption
  with_namespace : Bytes → ConnectOption

pub record ConnectConfig : Type 0 where
  pub socket : Bytes
  pub namespace : Bytes

abbrev pub default_namespace : Bytes
default_namespace = codes "default"

unfoldable pub configure : ConnectConfig → List ConnectOption → ConnectConfig
configure cc [] = cc
configure cc (with_socket path ∷ opts) = configure (record cc { socket = path }) opts
configure cc (with_namespace space ∷ opts) = configure (record cc { namespace = space }) opts

module _ (dial : Bytes → Option Bytes) (default_socket : Bytes) where
  unfoldable pub socket_of : ConnectConfig → Bytes
  socket_of cc = if is_nil cc.socket then default_socket else cc.socket

  -- The namespace is taken unless it is empty.
  unfoldable pub named : ConnectConfig → Client
  named cc =
      if is_nil cc.namespace
      then dialed default_namespace
      else record (dialed default_namespace) { namespace = cc.namespace }

  pub connect : List ConnectOption → Bytes ⊎ Client
  connect opts =
      let cc = configure (record { socket = []; namespace = default_namespace }) opts in
      elim (dial (socket_of cc)) [
        | some e ↦ inl (
            codes "no pupptyeer daemon at "
            ++ socket_of cc
            ++ codes "; install/start it (`pupptyeer daemon install`) or set PUPPTYEER_SOCK: "
            ++ e)
        | none ↦ inr (named cc)
      ]

  named-full : (cc : ConnectConfig) → is_nil (named cc).namespace ≡ false
  unfolding named dialed
  named-full cc = ground arith

  -- A connection always has a namespace, whatever the options.
  pub connect-named :
      (opts : List ConnectOption) (c : Client) → connect opts ≡ inr c → is_nil c.namespace ≡ false
  unfolding connect
  connect-named opts c h =
      let cc = configure (record { socket = []; namespace = default_namespace }) opts in
      elim (Option-cases (dial (socket_of cc))) [
        | inl e ↦ ground (arith, h, e, named-full cc)
        | inr (x, e) ↦ ground (arith, h, e)
      ]
