-- ===== src/Signers/Pattern/Lists.antt =====
-- Pattern lists against their meaning: a negated match takes precedence over any positive one.
use ssh_sign.Prelude.{Bool, true, false, not, ◌&&◌, ◌||◌, List, [], ◌∷◌, ◌≡◌, arith, ◌==◌, any}
use ssh_sign.Text.Bytes.{Bytes, has_prefix, trim_prefix}
use ssh_sign.Signers.Pattern.{patterns_loop, patterns_match}
use ssh_sign.Signers.Pattern.Glob.{glob}
use ssh_sign.Signers.Pattern.Correct.{wildcard_match-eq-glob}

-- The pattern is `!p`, and `p` matches.
abbrev pub excludes : Bytes → Bytes → Bool
excludes value [] = false
excludes value (c ∷ p) = c == b'!' && glob p value

-- The pattern is not negated, and matches.
abbrev pub includes : Bytes → Bytes → Bool
includes value [] = glob [] value
includes value (c ∷ p) = not (c == b'!') && glob (c ∷ p) value

patterns_loop_lem :
    (matched : Bool) (ps : List Bytes) (value : Bytes)
    → patterns_loop matched ps value
      ≡ (not (any (excludes value) ps) && (matched || any (includes value) ps))
unfolding patterns_loop has_prefix trim_prefix
patterns_loop_lem matched [] value = ground arith
patterns_loop_lem matched ([] ∷ ps) value = ground (
  arith,
  wildcard_match-eq-glob [] value,
  patterns_loop_lem matched ps value,
  patterns_loop_lem true ps value,
)
patterns_loop_lem matched ((c ∷ p) ∷ ps) value = ground (
  arith,
  wildcard_match-eq-glob (c ∷ p) value,
  wildcard_match-eq-glob p value,
  patterns_loop_lem matched ps value,
  patterns_loop_lem true ps value,
)

-- A list matches a value exactly if some positive pattern does and no negated one does.
pub patterns_match_lem :
    (ps : List Bytes) (value : Bytes)
    → patterns_match ps value ≡ (not (any (excludes value) ps) && any (includes value) ps)
unfolding patterns_match
patterns_match_lem ps value = patterns_loop_lem false ps value
