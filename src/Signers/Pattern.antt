-- ===== src/Signers/Pattern.antt =====
-- pkg/allowedsigners/pattern.go: OpenSSH patterns. An index into the pattern or the value is
-- the rest of it from there on.
pub mod Glob
pub mod Correct
pub mod Lists
use ssh_sign.Prelude.{
  ℕ, zero, suc, ◌+◌, ◌*◌, Bool, true, false, ◌||◌, List, [], ◌∷◌, Option, none, some, ◌==◌,
  if◌then◌else◌, length, drop,
}
use ssh_sign.Text.Bytes.{Bytes, has_prefix, trim_prefix, split}

-- `star` and `mark`: the pattern after the last `*`, and the value from where it gave up.
abbrev pub Back : Type 0
Back = Option (Bytes × Bytes)

-- The last two branches of the `switch`: let the last `*` swallow one more byte, or give up.
pub retry : Back → (Bytes → Bytes → Back → Option Bool) → Option Bool
retry none next = some false
retry (some (after, mark)) next = next after (drop 1 mark) (some (after, drop 1 mark))

-- The loop over trailing stars, and the final test.
pub only_stars : Bytes → Bool
only_stars [] = true
only_stars (q ∷ p) = if q == b'*' then only_stars p else false

-- The loop over the value; `none` where the fuel is out.
pub match_loop : ℕ → Bytes → Bytes → Back → Option Bool
match_loop zero p v back = none
match_loop (suc f) p [] back = some (only_stars p)
match_loop (suc f) [] (c ∷ v) back = retry back (match_loop f)
match_loop (suc f) (q ∷ p) (c ∷ v) back =
    let starred = match_loop f p (c ∷ v) (some (p, c ∷ v)) in
    let onward = match_loop f p v back in
    if q == b'*' then starred else if q == b'?' || q == c then onward else retry back (match_loop f)

-- Rounds that are enough: each retry moves the mark, and each other round the pattern.
abbrev pub match_fuel : Bytes → Bytes → ℕ
match_fuel p v = (length v + 1) * (length p + 1)

abbrev answer : Option Bool → Bool
answer none = false
answer (some b) = b

unfoldable pub wildcard_match : Bytes → Bytes → Bool
unfolding match_loop retry only_stars
wildcard_match p v = answer (match_loop (match_fuel p v) p v none)

-- The loop over the patterns of a list; `matched` is what has been found so far.
pub patterns_loop : Bool → List Bytes → Bytes → Bool
patterns_loop matched [] value = matched
patterns_loop matched (pattern ∷ rest) value =
    let negated = has_prefix pattern (b'!' ∷ []) in
    let p = if negated then trim_prefix pattern (b'!' ∷ []) else pattern in
    let hit = wildcard_match p value in
    let skipped = patterns_loop matched rest value in
    let found = patterns_loop true rest value in
    if hit then (if negated then false else found) else skipped

unfoldable pub patterns_match : List Bytes → Bytes → Bool
unfolding patterns_loop
patterns_match patterns value = patterns_loop false patterns value

unfoldable pub pattern_list_match : Bytes → Bytes → Bool
pattern_list_match list value = patterns_match (split b',' list) value
