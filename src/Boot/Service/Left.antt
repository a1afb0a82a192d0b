-- ===== src/Boot/Service/Left.antt =====
-- cmd/pupptyeer/daemon.go: the paths that the commands of `pupptyeer daemon` may leave beside the unit.
use pupptyeer.Prelude.{
  ◌≡◌, refl, Bool, true, false, ◌&&◌, ◌||◌, Bytes, List, [], ◌∷◌, ◌++◌, ◌==◌, text_eq, text_eq_refl,
  arith, if◌then◌else◌,
}
use pupptyeer.Boot.Service.{
  Call, run, install, uninstall, start, stop, status, control, add_wants, daemon_reload, make_dir,
  write_file, remove, remove_all, Answer, done, missing, failed, Log,
}

-- A path is a directory's or below it.
unfoldable pub is_under : Bytes → Bytes → Bool
is_under [] [] = true
is_under [] (c ∷ p) = c == b'/'
is_under (b ∷ d) [] = false
is_under (b ∷ d) (c ∷ p) = b == c && is_under d p

unfoldable pub without : Bytes → List Bytes → List Bytes
without p [] = []
without p (q ∷ left) = let rest = without p left in if text_eq q p then rest else q ∷ rest

unfoldable pub outside : Bytes → List Bytes → List Bytes
outside d [] = []
outside d (q ∷ left) = let rest = outside d left in if is_under d q then rest else q ∷ rest

-- The file is gone.
unfoldable pub is_gone : Answer → Bool
is_gone done = true
is_gone (missing e) = true
is_gone (failed e) = false

pub is_under_refl : (d : Bytes) → is_under d d ≡ true
unfolding is_under
is_under_refl [] = refl
is_under_refl (b ∷ d) = ground (arith, is_under_refl d)

module _ (link : Bytes) where
  -- The paths that may be there after one more call: one that failed may have written nonetheless. The
  -- link is the one that `systemctl --user add-wants` makes, below the home's configuration.
  unfoldable pub left_after : List Bytes → Call → Answer → List Bytes
  left_after left run x = left
  left_after left install x = left
  left_after left uninstall x = left
  left_after left start x = left
  left_after left stop x = left
  left_after left status x = left
  left_after left (control verb) x = left
  left_after left add_wants x = link ∷ left
  left_after left daemon_reload x = left
  left_after left (make_dir d) x = d ∷ left
  left_after left (write_file p text) x = p ∷ left
  left_after left (remove p) x = if is_gone x then without p left else left
  left_after left (remove_all d) x = if is_gone x then outside d left else left

  unfoldable pub left_by : List Bytes → Log → List Bytes
  left_by left [] = left
  left_by left ((a, x) ∷ log) = left_by (left_after left a x) log

  pub left_by-append :
      (left : List Bytes) (l k : Log) → left_by left (l ++ k) ≡ left_by (left_by left l) k
  unfolding left_by
  left_by-append left [] k = refl
  left_by-append left ((a, x) ∷ l) k = left_by-append (left_after left a x) l k

  module _ (dir : Bytes) where
    -- The link, or a path below the directory.
    unfoldable pub is_ours : Bytes → Bool
    is_ours p = text_eq p link || is_under dir p

    unfoldable pub are_ours : List Bytes → Bool
    are_ours [] = true
    are_ours (p ∷ left) = is_ours p && are_ours left

    -- A call that writes no other path.
    unfoldable pub fits : Call → Bool
    fits run = true
    fits install = true
    fits uninstall = true
    fits start = true
    fits stop = true
    fits status = true
    fits (control verb) = true
    fits add_wants = true
    fits daemon_reload = true
    fits (make_dir d) = is_ours d
    fits (write_file p text) = is_ours p
    fits (remove p) = true
    fits (remove_all d) = true

    pub without-ours :
        (p : Bytes) (left : List Bytes) → are_ours left ≡ true → are_ours (without p left) ≡ true
    unfolding are_ours without
    without-ours p [] h = refl
    without-ours p (q ∷ left) h = ground (arith, without-ours p left)

    outside-ours :
        (d : Bytes) (left : List Bytes) → are_ours left ≡ true → are_ours (outside d left) ≡ true
    unfolding are_ours outside
    outside-ours d [] h = refl
    outside-ours d (q ∷ left) h = ground (arith, outside-ours d left)

    pub left_after-ours :
        (left : List Bytes) (a : Call) (x : Answer)
        → fits a ≡ true
        → are_ours left ≡ true
        → are_ours (left_after left a x) ≡ true
    unfolding left_after are_ours fits is_ours
    left_after-ours left run x g h = h
    left_after-ours left install x g h = h
    left_after-ours left uninstall x g h = h
    left_after-ours left start x g h = h
    left_after-ours left stop x g h = h
    left_after-ours left status x g h = h
    left_after-ours left (control verb) x g h = h
    left_after-ours left add_wants x g h = rw (text_eq_refl link, h)
    left_after-ours left daemon_reload x g h = h
    left_after-ours left (make_dir d) x g h = ground arith
    left_after-ours left (write_file p text) x g h = ground arith
    left_after-ours left (remove p) x g h = ground (arith, without-ours p left h)
    left_after-ours left (remove_all d) x g h = ground (arith, outside-ours d left h)

    -- The removal of both leaves nothing.
    pub ours-removed :
        (left : List Bytes) → are_ours left ≡ true → outside dir (without link left) ≡ []
    unfolding are_ours is_ours without outside
    ours-removed [] h = refl
    ours-removed (p ∷ left) h = ground (arith, ours-removed left)
