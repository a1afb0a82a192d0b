-- ===== src/Cli/Ctl/Wide.antt =====
-- cmd/pupptyeer/ctl.go: which commands of `ctl` may be for all namespaces.
use pupptyeer.Prelude.{
  ◌≡◌, refl, sym, ap, ◌∙◌, ◌⊎◌, inl, inr, Bool, true, false, Option, none, some, Bytes, List, [],
  ◌∷◌, codes, text_eq, text_eq_sound, arith, if◌then◌else◌,
}
use pupptyeer.Cli.Args.{ArgError, NsArgs, extract_ns_flags}
use pupptyeer.Cli.Ctl.{
  CtlError, only_list_and_gc, unknown_command, Verb, list, new, send, capture, attach, expect,
  resize, kill, gc, steal, verb_of, Chosen, is_wide, merge_flags, choose_command, choose_after,
  choose, Command, listing, collecting, Shell, read_attach, read_command, read_chosen,
}

name_of : Verb → Bytes
name_of list = codes "list"
name_of new = codes "new"
name_of send = codes "send"
name_of capture = codes "capture"
name_of attach = codes "attach"
name_of expect = codes "expect"
name_of resize = codes "resize"
name_of kill = codes "kill"
name_of gc = codes "gc"
name_of steal = codes "steal"

verb_of-name : (c : Bytes) (v : Verb) → verb_of c ≡ some v → c ≡ name_of v
unfolding verb_of name_of
verb_of-name c v h = ground (
  arith,
  h,
  text_eq_sound c (codes "list"),
  text_eq_sound c (codes "new"),
  text_eq_sound c (codes "send"),
  text_eq_sound c (codes "capture"),
  text_eq_sound c (codes "attach"),
  text_eq_sound c (codes "expect"),
  text_eq_sound c (codes "resize"),
  text_eq_sound c (codes "kill"),
  text_eq_sound c (codes "gc"),
  text_eq_sound c (codes "steal"),
)

abbrev pub is_wide_command : Command → Bool
is_wide_command listing = true
is_wide_command (collecting d) = true
is_wide_command narrow = false

module _ (ch : Chosen) where
  merge_flags-wide :
      (command : Bytes) (first : NsArgs) (r : ArgError ⊎ NsArgs)
      → is_wide command ≡ true
      → merge_flags command first r ≡ inr ch
      → is_wide ch.command ≡ true
  merge_flags-wide command first (inl x) h f = absurd (ground (arith, f))
  merge_flags-wide command first (inr second) h f = ground arith

  choose_command-wide :
      (first : NsArgs) (words : List Bytes)
      → choose_command first words ≡ inr ch
      → ch.all ≡ true
      → is_wide ch.command ≡ true
  unfolding choose_command
  choose_command-wide first [] f k = absurd (ground (arith, f))
  choose_command-wide first (command ∷ words) f k = of_wide (is_wide command) first.all refl f
    where
      narrow : Bool → Chosen
      narrow all = record { ns = first.ns; all = all; command = command; args = words }

      of_wide :
          (b all : Bool)
          → is_wide command ≡ b
          → (if b
              then merge_flags command first (extract_ns_flags words false)
              else (if all then inl only_list_and_gc else inr (narrow all)))
            ≡ inr ch
          → is_wide ch.command ≡ true
      of_wide true all h g = merge_flags-wide command first (extract_ns_flags words false) h g
      of_wide false true h g = absurd (ground (arith, g))
      of_wide false false h g = absurd (ground (arith, g, k))

  pub choose-wide :
      (args : List Bytes) → choose args ≡ inr ch → ch.all ≡ true → is_wide ch.command ≡ true
  unfolding choose
  choose-wide [] e k = absurd (ground (arith, e))
  choose-wide (a ∷ args) e k = of_first (extract_ns_flags (a ∷ args) true) e
    where
      of_first : (r : ArgError ⊎ NsArgs) → choose_after r ≡ inr ch → is_wide ch.command ≡ true
      of_first (inl x) f = absurd (ground (arith, f))
      of_first (inr first) f = choose_command-wide first first.rest f k

abbrev wide_verb : Verb → Bool
wide_verb list = true
wide_verb gc = true
wide_verb other_verb = false

is_wide-name : (v : Verb) → is_wide (name_of v) ≡ wide_verb v
unfolding name_of text_eq
is_wide-name list = refl
is_wide-name new = refl
is_wide-name send = refl
is_wide-name capture = refl
is_wide-name attach = refl
is_wide-name expect = refl
is_wide-name resize = refl
is_wide-name kill = refl
is_wide-name gc = refl
is_wide-name steal = refl

module _ (sh : Shell) (cmd : Command) where
  read_command-wide :
      (v : Verb) (args : List Bytes)
      → read_command sh v args ≡ inr cmd
      → is_wide_command cmd ≡ wide_verb v
  unfolding read_command read_attach
  read_command-wide list args e = ground (arith, e)
  read_command-wide new args e = ground (arith, e)
  read_command-wide send [] e = absurd (ground (arith, e))
  read_command-wide send (a ∷ []) e = absurd (ground (arith, e))
  read_command-wide send (a ∷ b ∷ more) e = ground (arith, e)
  read_command-wide capture args e = ground (arith, e)
  read_command-wide attach args e = ground (arith, e)
  read_command-wide expect args e = ground (arith, e)
  read_command-wide resize [] e = absurd (ground (arith, e))
  read_command-wide resize (a ∷ []) e = absurd (ground (arith, e))
  read_command-wide resize (a ∷ b ∷ []) e = absurd (ground (arith, e))
  read_command-wide resize (a ∷ b ∷ c ∷ more) e = ground (arith, e)
  read_command-wide kill [] e = absurd (ground (arith, e))
  read_command-wide kill (a ∷ more) e = ground (arith, e)
  read_command-wide gc args e = ground (arith, e)
  read_command-wide steal args e = ground (arith, e)

  pub read_chosen-wide :
      (ch : Chosen) → read_chosen sh ch ≡ inr cmd → is_wide_command cmd ≡ is_wide ch.command
  unfolding read_chosen
  read_chosen-wide ch e = of_verb (verb_of ch.command) refl e
    where
      of_verb :
          (r : Option Verb)
          → verb_of ch.command ≡ r
          → (elim r as (λ x. CtlError ⊎ Command) [
            | none ↦ inl (unknown_command ch.command)
            | some v ↦ read_command sh v ch.args
          ])
            ≡ inr cmd
          → is_wide_command cmd ≡ is_wide ch.command
      of_verb none f g = absurd (ground (arith, g))
      of_verb (some v) f g =
          read_command-wide v ch.args g
          ∙ sym (is_wide-name v)
          ∙ ap is_wide (sym (verb_of-name ch.command v f))
