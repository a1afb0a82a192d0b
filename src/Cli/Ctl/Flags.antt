-- ===== src/Cli/Ctl/Flags.antt =====
-- cmd/pupptyeer/ctl.go: the namespace flags of `ctl`, in front of the command and, for `list` and `gc`,
-- behind it.
use pupptyeer.Prelude.{
  ◌≡◌, refl, Bool-cases, ap, ◌∙◌, ◌⊎◌, inl, inr, Bool, true, false, ◌||◌, ◌&&◌, not, Bytes, List,
  [], ◌∷◌, codes, text_eq, arith, if◌then◌else◌, sym,
}
use pupptyeer.Prelude.Strings.{is_nil}
use pupptyeer.Cli.Args.{ArgError, NsArgs, is_ns_flag, is_all_flag, keep, ns_flags, extract_ns_flags}
use pupptyeer.Cli.Ctl.{Chosen, is_wide, merge_flags, choose_command, choose_after, choose}

-- A flag, in its short or its long spelling.
pub data NsFlag : Type 0 where
  named : Bool → Bytes → NsFlag
  everywhere : Bool → NsFlag

-- What stands behind a command without a payload: flags and words.
pub data Part : Type 0 where
  flag : NsFlag → Part
  word : Bytes → Part

unfoldable pub flag_words : NsFlag → List Bytes → List Bytes
flag_words (named long ns) rest = (if long then codes "--namespace" else codes "-n") ∷ ns ∷ rest
flag_words (everywhere long) rest = (if long then codes "--all-namespaces" else codes "-A") ∷ rest

-- The flags as they are typed, in front of `rest`; and the flags and words.
unfoldable pub flags_words : List NsFlag → List Bytes → List Bytes
flags_words [] rest = rest
flags_words (f ∷ fs) rest = flag_words f (flags_words fs rest)

unfoldable pub parts_words : List Part → List Bytes
parts_words [] = []
parts_words (flag f ∷ ps) = flag_words f (parts_words ps)
parts_words (word w ∷ ps) = w ∷ parts_words ps

unfoldable pub flags_of : List Part → List NsFlag
flags_of [] = []
flags_of (flag f ∷ ps) = f ∷ flags_of ps
flags_of (word w ∷ ps) = flags_of ps

unfoldable pub plain_of : List Part → List Bytes
plain_of [] = []
plain_of (flag f ∷ ps) = plain_of ps
plain_of (word w ∷ ps) = w ∷ plain_of ps

-- The namespace of the last -n, if there is one, and whether -A is among the flags.
unfoldable pub last_named : Bytes → List NsFlag → Bytes
last_named ns [] = ns
last_named ns (named long n ∷ fs) = last_named n fs
last_named ns (everywhere long ∷ fs) = last_named ns fs

unfoldable pub any_all : List NsFlag → Bool
any_all [] = false
any_all (named long n ∷ fs) = any_all fs
any_all (everywhere long ∷ fs) = true

abbrev pub IsWord : Bytes → Type 0
IsWord w = (is_ns_flag w ≡ false) × (is_all_flag w ≡ false)

unfoldable pub AreWords : List Part → Type 0
AreWords [] = Unit {0}
AreWords (flag f ∷ ps) = AreWords ps
AreWords (word w ∷ ps) = IsWord w × AreWords ps

ns_flags-flag :
    (leading : Bool) (ns : Bytes) (all : Bool) (f : NsFlag) (rest : List Bytes)
    → ns_flags leading ns all (flag_words f rest)
      ≡ ns_flags leading (last_named ns (f ∷ [])) (all || any_all (f ∷ [])) rest
unfolding ns_flags flag_words last_named any_all text_eq
ns_flags-flag leading ns true (named true n) rest = refl
ns_flags-flag leading ns false (named true n) rest = refl
ns_flags-flag leading ns true (named false n) rest = refl
ns_flags-flag leading ns false (named false n) rest = refl
ns_flags-flag leading ns true (everywhere true) [] = refl
ns_flags-flag leading ns true (everywhere true) (b ∷ rest) = refl
ns_flags-flag leading ns true (everywhere false) [] = refl
ns_flags-flag leading ns true (everywhere false) (b ∷ rest) = refl
ns_flags-flag leading ns false (everywhere true) [] = refl
ns_flags-flag leading ns false (everywhere true) (b ∷ rest) = refl
ns_flags-flag leading ns false (everywhere false) [] = refl
ns_flags-flag leading ns false (everywhere false) (b ∷ rest) = refl

-- The flags so far and one more.
last_named-cons :
    (ns : Bytes) (f : NsFlag) (fs : List NsFlag)
    → last_named (last_named ns (f ∷ [])) fs ≡ last_named ns (f ∷ fs)
unfolding last_named
last_named-cons ns (named long n) fs = refl
last_named-cons ns (everywhere long) fs = refl

any_all-cons :
    (all : Bool) (f : NsFlag) (fs : List NsFlag)
    → ((all || any_all (f ∷ [])) || any_all fs) ≡ (all || any_all (f ∷ fs))
unfolding any_all
any_all-cons true f fs = refl
any_all-cons false (named long n) fs = refl
any_all-cons false (everywhere long) fs = refl

abbrev after : Bytes → Bool → List NsFlag → List Bytes → ArgError ⊎ NsArgs
after ns all fs rest = inr (record { ns = last_named ns fs; all = all || any_all fs; rest = rest })

ns_flags-leading :
    (ns : Bytes) (all : Bool) (fs : List NsFlag) (command : Bytes) (rest : List Bytes)
    → IsWord command
    → ns_flags true ns all (flags_words fs (command ∷ rest)) ≡ after ns all fs (command ∷ rest)
unfolding ns_flags flags_words last_named any_all
ns_flags-leading ns true [] command [] h = rw (h.0, h.1) refl
ns_flags-leading ns false [] command [] h = rw (h.0, h.1) refl
ns_flags-leading ns true [] command (b ∷ rest) h = rw (h.0, h.1) refl
ns_flags-leading ns false [] command (b ∷ rest) h = rw (h.0, h.1) refl
ns_flags-leading ns all (f ∷ fs) command rest h =
    ns_flags-flag true ns all f (flags_words fs (command ∷ rest))
    ∙ ns_flags-leading (last_named ns (f ∷ [])) (all || any_all (f ∷ [])) fs command rest h
    ∙ rw (last_named-cons ns f fs, any_all-cons all f fs) refl

ns_flags-word :
    (ns : Bytes) (all : Bool) (w : Bytes) (rest : List Bytes)
    → IsWord w
    → ns_flags false ns all (w ∷ rest) ≡ keep w (ns_flags false ns all rest)
unfolding ns_flags
ns_flags-word ns all w [] h = rw (h.0, h.1) refl
ns_flags-word ns all w (b ∷ rest) h = rw (h.0, h.1) refl

ns_flags-anywhere :
    (ns : Bytes) (all : Bool) (ps : List Part)
    → AreWords ps
    → ns_flags false ns all (parts_words ps) ≡ after ns all (flags_of ps) (plain_of ps)
unfolding ns_flags parts_words flags_of plain_of last_named any_all AreWords
ns_flags-anywhere ns true [] h = refl
ns_flags-anywhere ns false [] h = refl
ns_flags-anywhere ns all (flag f ∷ ps) h =
    ns_flags-flag false ns all f (parts_words ps)
    ∙ ns_flags-anywhere (last_named ns (f ∷ [])) (all || any_all (f ∷ [])) ps h
    ∙ rw (last_named-cons ns f (flags_of ps), any_all-cons all f (flags_of ps)) refl
ns_flags-anywhere ns all (word w ∷ ps) h =
    ns_flags-word ns all w (parts_words ps) h.0 ∙ ap (keep w) (ns_flags-anywhere ns all ps h.1)

choose_lem : (args : List Bytes) → choose args ≡ choose_after (extract_ns_flags args true)
unfolding choose extract_ns_flags ns_flags choose_command
choose_lem [] = refl
choose_lem (a ∷ args) = refl

-- The namespace and the scope that flags in front of a command and behind it mean.
pub meant_ns : List NsFlag → Bytes → List Part → Bytes
meant_ns before command behind =
    if is_wide command && not (is_nil (last_named [] (flags_of behind)))
    then last_named [] (flags_of behind)
    else last_named [] before

pub meant_all : List NsFlag → Bytes → List Part → Bool
meant_all before command behind = any_all before || is_wide command && any_all (flags_of behind)

-- `rest` is what stands behind the command: any words, but for `list` and `gc` flags and words that are
-- not flags.
abbrev pub IsBehind : Bytes → List Bytes → List Part → Type 0
IsBehind command rest behind =
    is_wide command ≡ true → (rest ≡ parts_words behind) × AreWords behind

-- What is chosen is the command, with the namespace and the scope that are meant.
abbrev pub IsMeant : List NsFlag → Bytes → List Part → Chosen → Type 0
IsMeant before command behind ch =
    (ch.command ≡ command)
    × (ch.ns ≡ meant_ns before command behind)
    × (ch.all ≡ meant_all before command behind)

merge_flags-IsMeant :
    (before : List NsFlag) (command : Bytes) (behind : List Part) (ch : Chosen) (words : List Bytes)
    → is_wide command ≡ true
    → merge_flags command
        (record { ns = last_named [] before; all = any_all before; rest = words })
        (after [] false (flags_of behind) (plain_of behind))
      ≡ inr ch
    → IsMeant before command behind ch
unfolding meant_ns meant_all
merge_flags-IsMeant before command behind ch words k e = ground (arith, e, k)

choose_command-IsMeant :
    (before : List NsFlag) (command : Bytes) (rest : List Bytes) (behind : List Part) (ch : Chosen)
    → IsBehind command rest behind
    → choose_command
        (record { ns = last_named [] before; all = any_all before; rest = command ∷ rest })
        (command ∷ rest)
      ≡ inr ch
    → IsMeant before command behind ch
unfolding choose_command extract_ns_flags meant_ns meant_all
choose_command-IsMeant before command rest behind ch h e = elim (Bool-cases (is_wide command)) [
  | inl wide ↦
      let (same, words) = h wide in
      merge_flags-IsMeant before command behind ch (command ∷ rest) wide (
        ap
          (merge_flags command
            (record { ns = last_named [] before; all = any_all before; rest = command ∷ rest }))
          (sym (ns_flags-anywhere [] false behind words) ∙ ap (ns_flags false [] false) (sym same))
        ∙ ground (arith, e, wide))
  | inr narrow ↦ ground (arith, e, narrow)
]

-- What `runCtl` makes of the flags.
pub choose-IsMeant :
    (before : List NsFlag) (command : Bytes) (rest : List Bytes) (behind : List Part) (ch : Chosen)
    → IsWord command
    → IsBehind command rest behind
    → choose (flags_words before (command ∷ rest)) ≡ inr ch
    → IsMeant before command behind ch
unfolding extract_ns_flags
choose-IsMeant before command rest behind ch w h e =
    choose_command-IsMeant before command rest behind ch h (
      ap choose_after (sym (ns_flags-leading [] false before command rest w))
      ∙ sym (choose_lem (flags_words before (command ∷ rest)))
      ∙ e)
