-- ===== src/Cmd/Inputs/Limits.antt =====
-- What the signers files and a signature from standard input amount to.
use ssh_sign.Prelude.{
  ℕ, ◌+◌, ◌-◌, ◌≤◌, false, List, [], ◌∷◌, Option, none, some, ◌≡◌, ◌↔◌, refl, sym, ap, ◌∙◌, arith,
  ltb, leb, take, length, length-take, leb→le, Bool-cases, inl, inr, Result, ok, err, >>=-eq-ok,
}
use ssh_sign.Text.Bytes.{Bytes}
use ssh_sign.Text.Scan.{Reader}
use ssh_sign.Sshsig.Armored.{read_limited}
use ssh_sign.Cmd.Inputs.{SignersFile, read_signers_file, read_signers_files}

-- Every file is read to its end.
abbrev pub AreRead : List SignersFile → Type 0
AreRead [] = Unit
AreRead (f ∷ fs) = (f.reader.failure ≡ none) × AreRead fs

abbrev pub contents : List SignersFile → List (Bytes × Bytes)
contents [] = []
contents (f ∷ fs) = (f.path, f.reader.content) ∷ contents fs

abbrev pub total_size : List SignersFile → ℕ
total_size [] = 0
total_size (f ∷ fs) = length f.reader.content + total_size fs

-- With one byte more than the limit, a content within it is the whole.
read_limited-whole :
    (n : ℕ) (r : Reader) (s : Bytes)
    → read_limited (n + 1) r ≡ ok s
    → length s ≤ n
    → (s ≡ r.content) × (r.failure ≡ none)
unfolding read_limited
read_limited-whole n r s h l = elim (Bool-cases (leb (n + 1) (length r.content))) [
  | inl e ↦
      let same : take (n + 1) r.content ≡ s = cc (rw e at h) in
      let long = length-take (n + 1) r.content (leb→le _ _ e) in
      absurd (omega (arith, ap length same))
  | inr f ↦ go r.failure refl (rw f at h)
]
  where
    go :
        (o : Option Bytes)
        → r.failure ≡ o
        → (elim o as (λ x. Result Bytes Bytes) [ none ↦ ok r.content | some e ↦ err e ]) ≡ ok s
        → (s ≡ r.content) × (r.failure ≡ none)
    go none e h = (cc, e)
    go (some x) e h = cc

whole-read_limited :
    (n : ℕ) (r : Reader)
    → r.failure ≡ none
    → length r.content ≤ n
    → read_limited (n + 1) r ≡ ok r.content
unfolding read_limited
whole-read_limited n r e l = ground arith

read_files :
    (limit n : ℕ) (fs : List SignersFile) (cs : List (Bytes × Bytes))
    → read_signers_files limit n fs ≡ ok cs
    → AreRead fs × (total_size fs ≤ n) × (cs ≡ contents fs)
unfolding read_signers_files read_signers_file
read_files limit n [] cs h = (tt, omega arith, cc)
read_files limit n (f ∷ fs) cs h =
    go (read_limited (n + 1) f.reader) refl (λ k rest e. read_files limit k fs rest e)
  where
    go :
        (r : Result Bytes Bytes)
        → read_limited (n + 1) f.reader ≡ r
        → ((k : ℕ) (rest : List (Bytes × Bytes))
            → read_signers_files limit k fs ≡ ok rest
            → AreRead fs × (total_size fs ≤ k) × (rest ≡ contents fs))
        → AreRead (f ∷ fs) × (total_size (f ∷ fs) ≤ n) × (cs ≡ contents (f ∷ fs))
    go (err e) k later = cc (rw (read_signers_files, read_signers_file, k) at h)
    go (ok s) k later = elim (Bool-cases (ltb n (length s))) [
      | inl t ↦ cc (rw t at (rw (read_signers_files, read_signers_file, k) at h))
      | inr l ↦
          let (whole, complete) = read_limited-whole n f.reader s k (ground arith) in
          let (rest, e, h1) =
            >>=-eq-ok (read_signers_files limit (n - length s) fs) _
              (rw l at (rw (read_signers_files, read_signers_file, k) at h)) in
          let (read, small, same) = later (n - length s) rest e in
          ((complete, read), ground (arith, ap length whole), cc)
    ]

files_read :
    (limit n : ℕ) (fs : List SignersFile)
    → AreRead fs
    → total_size fs ≤ n
    → read_signers_files limit n fs ≡ ok (contents fs)
unfolding read_signers_files read_signers_file
files_read limit n [] w l = refl
files_read limit n (f ∷ fs) (e, w) l =
    let k = whole-read_limited n f.reader e (omega arith) in
    let rest = files_read limit (n - length f.reader.content) fs w (omega arith) in
    let fits : ltb n (length f.reader.content) ≡ false = ground arith in
    rw (read_signers_files, read_signers_file, k) (rw (fits, rest))

-- The signers files are read exactly if each can be read to its end and all together do not
-- exceed the limit; what is returned are their whole contents, by path and in order.
pub read_signers_files_iff :
    (limit n : ℕ) (fs : List SignersFile) (cs : List (Bytes × Bytes))
    → (read_signers_files limit n fs ≡ ok cs)
      ↔ (AreRead fs × (total_size fs ≤ n) × (cs ≡ contents fs))
read_signers_files_iff limit n fs cs =
    (read_files limit n fs cs, λ (w, l, e). files_read limit n fs w l ∙ ap ok (sym e))
