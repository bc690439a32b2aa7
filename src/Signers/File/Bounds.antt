-- ===== src/Signers/File/Bounds.antt =====
-- The recorded errors of a file stay within their limit, and a file may be read in parts.
use ssh_sign.Prelude.{
  ℕ, ◌+◌, ◌≤◌, List, [], ◌∷◌, ◌++◌, ◌≡◌, refl, sym, arith, ltb, min, length, length-append, Result,
  ok, err, Bool-cases, inl, inr,
}
use ssh_sign.Signers.Line.{Entry, Reason}
use ssh_sign.Signers.File.{
  max_skipped_recorded, ParseError, File, empty_file, record_error, record_errors, skip, add_result,
}

-- All errors are counted, and the first 64 of them are recorded.
pub record IsCounted {K : Type 0} (f : File K) : Type 0 where
  pub recorded : length f.skipped ≡ min f.skipped_count max_skipped_recorded

module _ {K : Type 0} where
  pub empty-IsCounted : IsCounted (empty_file K)
  empty-IsCounted = omega arith

  pub skip-IsCounted : {f : File K} (e : ParseError) → IsCounted f → IsCounted (skip f e)
  unfolding skip
  skip-IsCounted {f} e v = grind (arith, length-append f.skipped (e ∷ []))

  pub add_result-IsCounted :
      {f : File K} (n : ℕ) (r : Result Reason (Entry K))
      → IsCounted f
      → IsCounted (add_result f n r)
  add_result-IsCounted n (ok e) v = record { recorded = v.recorded }
  add_result-IsCounted n (err msg) v = skip-IsCounted _ v

pub length-record_errors :
    (xs ys : List ParseError)
    → length xs ≤ max_skipped_recorded
    → length (record_errors xs ys) ≡ min (length xs + length ys) max_skipped_recorded
unfolding record_errors
length-record_errors xs [] h = omega arith
length-record_errors xs (e ∷ ys) h = elim (Bool-cases (ltb (length xs) max_skipped_recorded)) [
  | inl room ↦
      rw room (ground (arith, length-append xs (e ∷ []), length-record_errors (xs ++ e ∷ []) ys))
  | inr full ↦ rw full (ground (arith, length-record_errors xs ys))
]

record_errors-concat :
    (xs ys : List ParseError) (e : ParseError)
    → record_errors xs (ys ++ e ∷ []) ≡ record_error (record_errors xs ys) e
unfolding record_errors
record_errors-concat xs [] e = refl
record_errors-concat xs (y ∷ ys) e = record_errors-concat (record_error xs y) ys e

pub record_error_assoc :
    (xs ys : List ParseError) (e : ParseError)
    → length xs ≤ max_skipped_recorded
    → record_error (record_errors xs ys) e ≡ record_errors xs (record_error ys e)
record_error_assoc xs ys e h = elim (Bool-cases (ltb (length ys) max_skipped_recorded)) [
  | inl room ↦ rw room (sym (record_errors-concat xs ys e))
  | inr full ↦ rw full (ground (arith, length-record_errors xs ys h))
]
