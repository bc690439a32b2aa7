-- ===== src/Signers/Match/Selected.antt =====
-- The entry that a match selects.
use ssh_sign.Prelude.{
  Bool, true, false, Option, none, some, ◌≡◌, refl, sym, ap, ◌∙◌, arith, find, find-mem, Mem,
  Bool-cases, inl, inr,
}
use ssh_sign.Text.Bytes.{Bytes}
use ssh_sign.Ssh.{Ssh}
use ssh_sign.Signers.Timestamp.{Time}
use ssh_sign.Signers.Line.{Entry}
use ssh_sign.Signers.File.{File}
use ssh_sign.Signers.Match.{Mode, is_required, entry, match_entry_in, is_restricted}
use ssh_sign.Signers.Match.Usable.{
  accepted, or_else, marked, is_usable, with_restricted, is_restricted_usable, is_fallback,
}
use ssh_sign.Signers.Match.Selection.{match_entry_first, match_entry_required}

module _ (ssh : Ssh) (pk : ssh.PublicKey) (principal ns : Bytes) (ts : Time) (mode : Mode) where
  -- What a match selects is an entry of the file that accepts the signer, and the flag says
  -- whether it restricts namespaces.
  pub record IsSelected (f : File ssh.PublicKey) (ent : Entry ssh.PublicKey) (restricted : Bool)
      : Type 0 where
    pub in_file : Mem ent f.entries
    pub accepts : is_usable ssh pk principal ns ts mode ent ≡ true
    pub flag_is : restricted ≡ is_restricted ssh pk principal ns ts mode ent

  IsSelected-first :
      (f : File ssh.PublicKey) (ent : Entry ssh.PublicKey) (b : Bool)
      (o : Option (Entry ssh.PublicKey))
      → find (is_usable ssh pk principal ns ts mode) f.entries ≡ o
      → some (ent, b) ≡ with_restricted ssh pk principal ns ts mode o
      → IsSelected f ent b
  IsSelected-first f ent b none e h = cc
  IsSelected-first f ent b (some x) e h =
      let same : ent ≡ x = cc in
      let (u, i) = find-mem (is_usable ssh pk principal ns ts mode) f.entries x e in
      record { in_file = rw same i; accepts = rw same u; flag_is = cc }

  IsSelected-required :
      (f : File ssh.PublicKey) (ent : Entry ssh.PublicKey) (b : Bool)
      (o p : Option (Entry ssh.PublicKey))
      → find (is_restricted_usable ssh pk principal ns ts mode) f.entries ≡ o
      → find (is_fallback ssh pk principal ns ts mode) f.entries ≡ p
      → some (ent, b) ≡ or_else (marked true o) (marked false p)
      → IsSelected f ent b
  IsSelected-required f ent b (some x) p e e' h =
      let same : ent ≡ x = cc in
      let (u, i) = find-mem (is_restricted_usable ssh pk principal ns ts mode) f.entries x e in
      record { in_file = rw same i; accepts = rw same (ground arith); flag_is = ground arith }
  IsSelected-required f ent b none (some x) e e' h =
      let same : ent ≡ x = cc in
      let (u, i) = find-mem (is_fallback ssh pk principal ns ts mode) f.entries x e' in
      record { in_file = rw same i; accepts = rw same (ground arith); flag_is = ground arith }
  IsSelected-required f ent b none none e e' h = cc

  -- An entry that a match returns is one of the file's that accepts the signer, and its flag says
  -- whether it restricts namespaces.
  pub match_entry-IsSelected :
      (f : File ssh.PublicKey) (ent : Entry ssh.PublicKey) (b : Bool)
      → match_entry_in ssh pk principal ns ts mode f ≡ entry ent b
      → IsSelected f ent b
  match_entry-IsSelected f ent b h = elim (Bool-cases (is_required mode)) [
    | inl r ↦
        IsSelected-required f ent b _ _ refl refl
          (ap accepted (sym h) ∙ match_entry_required ssh pk principal ns ts mode f r)
    | inr n ↦
        IsSelected-first f ent b _ refl
          (ap accepted (sym h) ∙ match_entry_first ssh pk principal ns ts mode f n)
  ]
