-- ===== src/Cli/Ctl/Scope.antt =====
-- cmd/pupptyeer/ctl.go: the namespace that a command of `ctl` is sent to.
use pupptyeer.Prelude.{◌≡◌, Bool, true, false, some, Bytes, arith, if◌then◌else◌}
use pupptyeer.Client.Wire.{Message}

-- The message is for the connection's namespace, unless it is for all.
abbrev IsScoped : Bytes → Bool → Message → Type 0
IsScoped default all m = (m.all ≡ all) × (all ≡ false → m.namespace ≡ default)

some-IsScoped :
    (default : Bytes) (all : Bool) (n m : Message)
    → some n ≡ some m
    → IsScoped default all n
    → IsScoped default all m
some-IsScoped default all n m e h = ground arith

wide-IsScoped :
    (default : Bytes) (all : Bool) (every one m : Message)
    → some (if all then every else one) ≡ some m
    → (every.all ≡ true)
    → IsScoped default false one
    → IsScoped default all m
wide-IsScoped default true every one m e h k = ground arith
wide-IsScoped default false every one m e h k = some-IsScoped default false one m e k
