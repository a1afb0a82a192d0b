-- ===== src/Mcp/Socket.antt =====
-- cmd/pupptyeer/main.go, clients/go/socket.go and mcp/dialer.go: where the daemon's socket is, as each of
-- the three Go modules finds it for itself, by the same text. The host's answers are in `Env`; `join` is
-- filepath.Join, `itoa` is strconv.Itoa on a user's number, and a text is ASCII.
use pupptyeer.Prelude.{
  ℕ, ◌≡◌, refl, Bool, true, ◌&&◌, ◌||◌, Option, none, some, Bytes, List, [], ◌∷◌, ◌++◌, codes, ◌==◌,
  arith, if◌then◌else◌,
}
use pupptyeer.Prelude.Int.{ℤ, pos, leb_ℤ}
use pupptyeer.Prelude.Strings.{is_nil, is_between}

-- What the process is told: two variables, the directory for temporary files, `user.Current().Uid` and
-- `os.Getuid()`.
pub record Env : Type 0 where
  pub pupptyeer_sock : Bytes
  pub xdg_runtime_dir : Bytes
  pub temp_dir : Bytes
  pub current_uid : Option Bytes
  pub getuid : ℤ

unfoldable pub is_safe : ℕ → Bool
is_safe r =
    is_between b'a' b'z' r
    || is_between b'A' b'Z' r
    || is_between b'0' b'9' r
    || r == b'.'
    || r == b'_'
    || r == b'-'

unfoldable pub sanitize_rune : ℕ → ℕ
sanitize_rune r = if is_safe r then r else b'_'

unfoldable pub sanitize_token : Bytes → Bytes
sanitize_token [] = []
sanitize_token (r ∷ s) = sanitize_rune r ∷ sanitize_token s

module _ (join : List Bytes → Bytes) (itoa : ℤ → Bytes) where
  unfoldable pub user_number : Env → Bytes
  user_number e = if leb_ℤ (pos 0) e.getuid then itoa e.getuid else codes "shared"

  unfoldable pub user_token : Env → Bytes
  user_token e = elim e.current_uid [
    | none ↦ user_number e
    | some uid ↦ if is_nil uid then user_number e else sanitize_token uid
  ]

  pub socket_path : Env → Bytes
  socket_path e =
      if is_nil e.pupptyeer_sock
      then (if is_nil e.xdg_runtime_dir
          then join (e.temp_dir ∷ (codes "pupptyeer-" ++ user_token e) ∷ codes "daemon.sock" ∷ [])
          else join (e.xdg_runtime_dir ∷ codes "pupptyeer" ∷ codes "daemon.sock" ∷ []))
      else e.pupptyeer_sock

-- Every byte of a text is one of a file's name.
unfoldable pub is_name : Bytes → Bool
is_name [] = true
is_name (r ∷ s) = is_safe r && is_name s

sanitize_rune-IsSafe : (r : ℕ) → is_safe (sanitize_rune r) ≡ true
unfolding sanitize_rune is_safe
sanitize_rune-IsSafe r = ground arith

-- A token is one element of a path, and one that is fit already stays as it is.
pub sanitize_token_lem :
    (s : Bytes) → (is_name (sanitize_token s) ≡ true) × (is_name s ≡ true → sanitize_token s ≡ s)
unfolding is_name sanitize_token sanitize_rune
sanitize_token_lem [] = (refl, λ h. refl)
sanitize_token_lem (r ∷ s) = ground (arith, sanitize_token_lem s, sanitize_rune-IsSafe r)
