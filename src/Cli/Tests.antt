-- ===== src/Cli/Tests.antt =====
-- Runs of the command line's parts, and the theorems at concrete inputs.
use pupptyeer.Prelude.{
  ◌≡◌, inl, inr, refl, true, none, some, Bytes, List, [], ◌∷◌, ◌++◌, codes, arith, text_eq,
}
use pupptyeer.Prelude.Int.{pos}
use pupptyeer.Cli.Keys.{FileConfig, parse_key, key_label}
use pupptyeer.Cli.Keys.Labels.{parse_key-key_label}
use pupptyeer.Cli.Matcher.{feed, feed_bytes}
use pupptyeer.Cli.Matcher.Pair.{occurs, two_keys, feed-two}
use pupptyeer.Cli.Args.New.{System, other, word_of}

-- Ctrl-B, d after a false start.
feed-false_start :
    feed (two_keys 2 b'd' 0) (b'x' ∷ 2 ∷ 2 ∷ b'd' ∷ b'y' ∷ [])
    ≡ record { matcher = two_keys 2 b'd' 0; out = b'x' ∷ 2 ∷ []; detached = true }
unfolding feed feed_bytes
feed-false_start = refl

feed-two_example :
    (feed (two_keys 2 b'd' 0) (2 ∷ 2 ∷ b'd' ∷ [])).detached
    ≡ occurs (2 ∷ b'd' ∷ []) (2 ∷ 2 ∷ b'd' ∷ [])
feed-two_example = feed-two 2 b'd' (2 ∷ 2 ∷ b'd' ∷ [])

parse_key-key_label_example : parse_key (key_label 0x1c) true ≡ inr (some 0x1c)
parse_key-key_label_example = parse_key-key_label 0x1c (omega arith) (omega arith) (omega arith)

abbrev tall_file : FileConfig
tall_file = record {
  detach_key = some (codes "d");
  detach_prefix = some (codes "ctrl-b");
  default_cols = some (pos 100);
  default_rows = some (pos 70000);
  quiet = none;
}

abbrev ctl_words : List Bytes
ctl_words = codes "-n" ∷ codes "x" ∷ codes "new" ∷ codes "grep" ∷ codes "-n" ∷ codes "foo" ∷ []

abbrev system : System
system = record {
  absolute = λ p. inr (codes "/home/u/" ++ p);
  read_file = λ p. inl (codes "no such file");
  environ = codes "HOME=/home/u" ∷ [];
}

abbrev new_words : List Bytes
new_words = codes "--copy-env" ∷ codes "--id" ∷ codes "a" ∷ codes "sh" ∷ codes "--raw" ∷ []

sh-other : word_of (codes "sh") ≡ other
unfolding word_of text_eq
sh-other = refl
