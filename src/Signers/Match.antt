-- ===== src/Signers/Match.antt =====
-- pkg/allowedsigners/verify.go: finding the entry that accepts a signer.
pub mod Usable
pub mod Selection
pub mod Selected
use ssh_sign.Prelude.{
  ℕ, ◌+◌, Bool, true, false, not, ◌&&◌, ◌||◌, List, [], ◌∷◌, ◌++◌, Option, none, some, ◌==◌, ltb,
  if◌then◌else◌, is_nil,
}
use ssh_sign.Text.Bytes.{Bytes}
use ssh_sign.Ssh.{Ssh}
use ssh_sign.Sshsig.PublicKey.{public_key_equal}
use ssh_sign.Signers.Pattern.{patterns_match, pattern_list_match}
use ssh_sign.Signers.Timestamp.{Time, before}
use ssh_sign.Signers.Line.{Entry}
use ssh_sign.Signers.File.{File}

-- `namespaceMode`
pub data Mode : Type 0 where
  ignored checked required : Mode

abbrev pub is_ignored : Mode → Bool
is_ignored ignored = true
is_ignored checked = false
is_ignored required = false

abbrev pub is_required : Mode → Bool
is_required required = true
is_required ignored = false
is_required checked = false

-- Why an entry that fits the key was passed over, with the entry's location.
pub data Complaint : Type 0 where
  namespace_mismatch not_yet_valid expired : Bytes → ℕ → Complaint

pub record ConstraintError : Type 0 where
  pub messages : List Complaint
  pub candidates : ℕ
  pub namespace_matches : ℕ
  pub namespace_mismatches : ℕ

abbrev pub no_complaints : ConstraintError
no_complaints = record {
  messages = [];
  candidates = 0;
  namespace_matches = 0;
  namespace_mismatches = 0;
}

-- `NamespaceConstraintResult`, on the error of a match if there was one: whether the namespace
-- was checked, and whether it matched.
unfoldable pub namespace_constraint_result : Option ConstraintError → Bool × Bool
namespace_constraint_result none = (false, false)
namespace_constraint_result (some e) =
    if ltb 0 e.namespace_matches
    then (true, true)
    else if ltb 0 e.candidates && e.namespace_mismatches == e.candidates
    then (true, false)
    else (false, false)

-- `ts.Before(*validAfter)` and `ts.After(*validBefore)`, where the option is set
abbrev pub too_early : Time → Option Time → Bool
too_early ts none = false
too_early ts (some t) = before ts t

abbrev pub too_late : Time → Option Time → Bool
too_late ts none = false
too_late ts (some t) = before t ts

-- The results of `matchEntry`: an entry and whether it restricts namespaces, an error, or none.
pub data Found (K : Type 0) : Type 0 where
  entry : Entry K → Bool → Found K
  rejected : ConstraintError → Found K
  nothing : Found K

-- How a round of the loop ends: on to the next entry, on with this entry as the fallback if there
-- is none yet, or with this entry as the result.
pub data Round : Type 0 where
  pass hold : ConstraintError → Round
  accept : Round

module _ (ssh : Ssh) (pk : ssh.PublicKey) (principal ns : Bytes) (ts : Time) (mode : Mode) where
  abbrev pub complain : ConstraintError → Complaint → ConstraintError
  complain e c = record e { messages = e.messages ++ c ∷ [] }

  -- The first two tests of the loop: the principal, if one is asked for, and the key.
  unfoldable pub is_candidate : Entry ssh.PublicKey → Bool
  is_candidate ent =
      (is_nil principal || pattern_list_match ent.principal principal)
      && public_key_equal ssh ent.public_key pk

  unfoldable pub is_restricted : Entry ssh.PublicKey → Bool
  is_restricted ent = not (is_ignored mode) && not (is_nil ent.options.namespaces)

  -- After the loop.
  abbrev pub no_entry : ConstraintError → Option (Entry ssh.PublicKey) → Found ssh.PublicKey
  no_entry e (some ent) = entry ent false
  no_entry e none = if is_nil e.messages then nothing else rejected e

  -- The time tests of a candidate whose namespace is in order, and its acceptance.
  unfoldable pub time_round : ConstraintError → Entry ssh.PublicKey → Round
  unfolding is_restricted
  time_round e ent =
      if too_early ts ent.options.valid_after
      then pass (complain e (not_yet_valid ent.source ent.line))
      else if too_late ts ent.options.valid_before
      then pass (complain e (expired ent.source ent.line))
      else if is_required mode && not (is_restricted ent)
      then hold e
      else accept

  -- The namespace test of a candidate, which `e` counts.
  unfoldable pub namespace_round : ConstraintError → Entry ssh.PublicKey → Round
  unfolding time_round
  namespace_round e ent =
      if not (is_restricted ent)
      then time_round e ent
      else if not (patterns_match ent.options.namespaces ns)
      then pass (
          complain (record e { namespace_mismatches = e.namespace_mismatches + 1 })
            (namespace_mismatch ent.source ent.line))
      else time_round (record e { namespace_matches = e.namespace_matches + 1 }) ent

  -- The body of the loop.
  unfoldable pub round : ConstraintError → Entry ssh.PublicKey → Round
  unfolding is_candidate namespace_round
  round e ent =
      if not (is_candidate ent)
      then pass e
      else namespace_round (record e { candidates = e.candidates + 1 }) ent

  -- The first usable entry without a restriction is the fallback.
  abbrev pub or_fallback :
      Option (Entry ssh.PublicKey) → Entry ssh.PublicKey → Option (Entry ssh.PublicKey)
  or_fallback none ent = some ent
  or_fallback (some old) ent = some old

  -- What follows a round; `go` is the rest of the loop.
  abbrev pub after_round :
      Round
      → Option (Entry ssh.PublicKey)
      → Entry ssh.PublicKey
      → (ConstraintError → Option (Entry ssh.PublicKey) → Found ssh.PublicKey)
      → Found ssh.PublicKey
  after_round (pass e) fallback ent go = go e fallback
  after_round (hold e) fallback ent go = go e (or_fallback fallback ent)
  after_round accept fallback ent go = entry ent (is_restricted ent)

  -- The loop over the entries.
  unfoldable pub match_loop :
      ConstraintError
      → Option (Entry ssh.PublicKey)
      → List (Entry ssh.PublicKey)
      → Found ssh.PublicKey
  unfolding round
  match_loop e fallback [] = no_entry e fallback
  match_loop e fallback (ent ∷ ents) =
      after_round (round e ent) fallback ent (λ e' fallback'. match_loop e' fallback' ents)

  unfoldable pub match_entry_in : File ssh.PublicKey → Found ssh.PublicKey
  unfolding match_loop
  match_entry_in f = match_loop no_complaints none f.entries

-- `MatchEntry` and `MatchEntryIgnoringNamespace` do not say whether the entry restricts namespaces.
abbrev pub unflagged : {K : Type 0} → Found K → Found K
unflagged (entry ent restricted) = entry ent false
unflagged (rejected e) = rejected e
unflagged nothing = nothing

module _ (ssh : Ssh) (f : File ssh.PublicKey) (pk : ssh.PublicKey) (principal : Bytes) where
  unfoldable pub match_entry : Bytes → Time → Found ssh.PublicKey
  match_entry ns ts = unflagged (match_entry_in ssh pk principal ns ts checked f)

  unfoldable pub match_entry_ignoring_namespace : Time → Found ssh.PublicKey
  match_entry_ignoring_namespace ts = unflagged (match_entry_in ssh pk principal [] ts ignored f)

  unfoldable pub match_entry_restricting_namespace : Bytes → Time → Found ssh.PublicKey
  match_entry_restricting_namespace ns ts = match_entry_in ssh pk principal ns ts required f
