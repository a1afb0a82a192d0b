-- ===== src/Core/Resize.antt =====
-- pkg/ptysession/session.go: `resizeLocked` and the size that the PTY and the emulator have.
use pupptyeer.Prelude.{
  ℕ, ◌≡◌, ◌⊎◌, inl, inr, refl, sym, subst, ap, true, false, ◌||◌, Option, none, some, Bytes, arith,
  Option-cases,
}
use pupptyeer.Prelude.Int.{ℤ, pos, leb_ℤ, to_uint16}
use pupptyeer.Core.Terminal.{Emulator}
use pupptyeer.Core.{Session, resize_locked, resize, pty_error}

-- A dimension that `resizeLocked` accepts.
abbrev pub IsPositive : ℤ → Type 0
IsPositive n = leb_ℤ n (pos 0) ≡ false

-- The size of a PTY that keeps what it has when it refuses.
abbrev pub pty_after : ℕ × ℕ → Option (ℕ × ℕ) → Option Bytes → ℕ × ℕ
pty_after old none err = old
pty_after old (some new) none = new
pty_after old (some new) (some e) = old

module _ (E : Emulator) where
  -- The PTY has the effective size, narrowed to 16 bits, and the effective size is positive.
  pub record InSync (s : Session E) (pty : ℕ × ℕ) : Type 0 where
    pub cols_positive : IsPositive s.eff_cols
    pub rows_positive : IsPositive s.eff_rows
    pub cols_told : pty.0 ≡ to_uint16 s.eff_cols
    pub rows_told : pty.1 ≡ to_uint16 s.eff_rows

  again_silent : (s : Session E) → resize_locked E s s.eff_cols s.eff_rows ≡ (s, none)
  unfolding resize_locked
  again_silent s = ground arith

  told_cases :
      (s : Session E) (cols rows : ℤ)
      → let (s', told) = resize_locked E s cols rows in
        ((told ≡ none) × (s' ≡ s))
        ⊎ (IsPositive cols
            × IsPositive rows
            × (told ≡ some (to_uint16 cols, to_uint16 rows))
            × (s'.eff_cols ≡ cols)
            × (s'.eff_rows ≡ rows))
  unfolding resize_locked
  told_cases s cols rows = ground arith

  again_none :
      (later : ℕ × ℕ → Option Bytes) (s : Session E) (cols rows : ℤ)
      → s.eff_cols ≡ cols
      → s.eff_rows ≡ rows
      → resize E later s cols rows ≡ (s, none, none)
  unfolding resize pty_error
  again_none later s cols rows e f = rw (sym e, sym f) (rw (again_silent s) refl)

  -- Positive numbers have become the effective size, whatever it was; with a number that is not positive
  -- the session is as it was.
  abbrev pub Taken : Session E → ℤ → ℤ → Session E → Type 0
  Taken s cols rows s' =
      (IsPositive cols × IsPositive rows × (s'.eff_cols ≡ cols) × (s'.eff_rows ≡ rows))
      ⊎ (((leb_ℤ cols (pos 0) ≡ true) ⊎ (leb_ℤ rows (pos 0) ≡ true)) × (s' ≡ s))

  resize_locked-Taken :
      (s : Session E) (cols rows : ℤ) → Taken s cols rows (resize_locked E s cols rows).0
  unfolding resize_locked
  resize_locked-Taken s cols rows = ground arith

  abbrev PtyAnswers :
      (ℕ × ℕ → Option Bytes) → (ℕ × ℕ) → ℤ → ℤ → Session E → Option (ℕ × ℕ) → Option Bytes → Type 0
  PtyAnswers later pty cols rows s' told err =
      ((err ≡ none) × InSync s' (pty_after pty told err))
      ⊎ ((e : Bytes) × (err ≡ some e)
          × (pty_after pty told err ≡ pty)
          × (s'.eff_cols ≡ cols)
          × (s'.eff_rows ≡ rows)
          × (resize E later s' cols rows ≡ (s', none, none)))

  resize-answers :
      (answer later : ℕ × ℕ → Option Bytes) (s : Session E) (pty : ℕ × ℕ) (cols rows : ℤ)
      → InSync s pty
      → let (s', told, err) = resize E answer s cols rows in
        PtyAnswers later pty cols rows s' told err
  unfolding resize pty_error
  resize-answers answer later s pty cols rows v = elim (told_cases s cols rows) [
    | inl (quiet, same) ↦ rw quiet (inl (refl, subst (λ t. InSync t pty) (sym same) v))
    | inr (wide, high, told, e, f) ↦
        let size : ℕ × ℕ = (to_uint16 cols, to_uint16 rows) in
        let s' = (resize_locked E s cols rows).0 in
        rw told (elim (Option-cases (answer size)) [
          | inl fine ↦ rw fine (
              inl (
                refl,
                record {
                  cols_positive = subst IsPositive (sym e) wide;
                  rows_positive = subst IsPositive (sym f) high;
                  cols_told = ap to_uint16 (sym e);
                  rows_told = ap to_uint16 (sym f);
                },
              ))
          | inr (x, bad) ↦ rw bad (inr (x, refl, refl, e, f, again_none later s' cols rows e f))
        ])
  ]

  -- `Resize` with any numbers. Positive ones become the effective size; with a number that is not positive
  -- the session is left as it was. It returns no error, and the PTY keeps the effective size, narrowed to
  -- 16 bits, which stays positive; or it returns the PTY's error, the PTY keeps the size that it had, but the
  -- session has taken the new one, and to repeat the request, whatever the PTY would answer, does nothing
  -- and returns no error.
  pub resize-InSync :
      (answer later : ℕ × ℕ → Option Bytes) (s : Session E) (pty : ℕ × ℕ) (cols rows : ℤ)
      → InSync s pty
      → let (s', told, err) = resize E answer s cols rows in
        Taken s cols rows s'
        × (((err ≡ none) × InSync s' (pty_after pty told err))
            ⊎ ((e : Bytes) × (err ≡ some e)
                × (pty_after pty told err ≡ pty)
                × (s'.eff_cols ≡ cols)
                × (s'.eff_rows ≡ rows)
                × (resize E later s' cols rows ≡ (s', none, none))))
  unfolding resize
  resize-InSync answer later s pty cols rows v =
      (resize_locked-Taken s cols rows, resize-answers answer later s pty cols rows v)

  -- The same of `resizeLocked`, which then tells the PTY nothing.
  pub resize_locked_cases :
      (s : Session E) (cols rows : ℤ)
      → let (s', told) = resize_locked E s cols rows in
        (IsPositive cols × IsPositive rows × (s'.eff_cols ≡ cols) × (s'.eff_rows ≡ rows))
        ⊎ ((leb_ℤ cols (pos 0) || leb_ℤ rows (pos 0) ≡ true) × (s' ≡ s) × (told ≡ none))
  unfolding resize_locked
  resize_locked_cases s cols rows = ground arith
