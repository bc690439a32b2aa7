-- ===== src/Signers/Pattern/Glob.antt =====
-- What a pattern means, by recursion on the pattern and with no search order in it: `*` stands
-- for any run of bytes, `?` for any byte and another byte for itself.
use ssh_sign.Prelude.{
  ℕ, Bool, true, false, ◌&&◌, ◌||◌, [], ◌∷◌, ◌≡◌, arith, ◌==◌, if◌then◌else◌, is_nil,
}
use ssh_sign.Text.Bytes.{Bytes}

-- The test holds of some suffix.
abbrev pub some_suffix : (Bytes → Bool) → Bytes → Bool
some_suffix f [] = f []
some_suffix f (c ∷ v) = f (c ∷ v) || some_suffix f v

abbrev pub one_byte : ℕ → (Bytes → Bool) → Bytes → Bool
one_byte q f [] = false
one_byte q f (c ∷ v) = (q == b'?' || q == c) && f v

unfoldable pub glob : Bytes → Bytes → Bool
glob [] v = is_nil v
glob (q ∷ p) v = if q == b'*' then some_suffix (glob p) v else one_byte q (glob p) v

-- A second star adds nothing.
pub some_suffix-star :
    (q : ℕ) (p v : Bytes)
    → (q == b'*') ≡ true
    → some_suffix (glob (q ∷ p)) v ≡ some_suffix (glob p) v
unfolding glob
some_suffix-star q p [] h = ground arith
some_suffix-star q p (c ∷ v) h = ground (arith, some_suffix-star q p v h)

-- Where a byte's test stands first, the rest of the pattern matches after the first byte.
pub some_suffix_drop :
    (q c : ℕ) (p v : Bytes)
    → (q == b'*') ≡ false
    → some_suffix (glob (q ∷ p)) (c ∷ v) ≡ true
    → some_suffix (glob p) v ≡ true
unfolding glob
some_suffix_drop q c p [] h = ground arith
some_suffix_drop q c p (d ∷ v) h = ground (arith, some_suffix_drop q d p v h)
