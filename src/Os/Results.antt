-- ===== src/Os/Results.antt =====
-- What the value is that an action returns, if it succeeds.
use ssh_sign.Prelude.{Result, ok, err, ◌≡◌, refl}
use ssh_sign.Text.Bytes.{Bytes}
use ssh_sign.Text.Scan.{Reader}
use ssh_sign.Os.{OpenFile, History, Os, Action, pure, continue, ◌>>=◌}

-- Every value that the action returns, from whatever history, has `P`.
pub record Yields {E A : Type 0} (P : A → Type 0) (m : Action E A) : Type 0 where
  pub at : (h : History) (a : A) → (m h).0 ≡ ok a → P a

module _ {E A : Type 0} {P : A → Type 0} where
  pub Yields-pure : (a : A) → P a → Yields P (pure {E = E} a)
  Yields-pure a p = record { at = λ h b e. let same : a ≡ b = cc e in rw (← same) p }

module _ {E A B : Type 0} {Q : B → Type 0} where
  Yields-continue :
      (r : Result E A) (next : A → Action E B) (h : History) (b : B)
      → ((a : A) → r ≡ ok a → Yields Q (next a))
      → (continue r next h).0 ≡ ok b
      → Q b
  Yields-continue (ok a) next h b k e = (k a refl).at h b e
  Yields-continue (err x) next h b k e = cc

  pub Yields-bind :
      {P : A → Type 0} (m : Action E A) (next : A → Action E B)
      → Yields P m
      → ((a : A) → P a → Yields Q (next a))
      → Yields Q (m >>= next)
  Yields-bind m next km k = record {
    at = λ h b e. let (r, h') = m h in Yields-continue r next h' b (λ a p. k a (km.at h a p)) e;
  }

  -- Whatever the first step returns.
  pub Yields-then :
      (m : Action E A) (next : A → Action E B)
      → ((a : A) → Yields Q (next a))
      → Yields Q (m >>= next)
  Yields-then m next k = record {
    at = λ h b e. let (r, h') = m h in Yields-continue r next h' b (λ a p. k a) e;
  }

-- The reader of a file that was opened at the path.
pub record IsOpened (os : Os) (path : Bytes) (r : Reader) : Type 0 where
  pub history : History
  pub file : OpenFile
  pub answered : os.open_file history path ≡ ok file
  pub reader_is : r ≡ file.reader
