-- ===== src/Signers/Fields/Total.antt =====
-- The loop of `split_fields` stops, with at most as many fields as asked for, none of them empty.
use ssh_sign.Prelude.{
  ℕ, zero, suc, ◌≤◌, ◌<◌, Bool, true, false, not, ◌&&◌, List, [], ◌∷◌, ◌++◌, ◌≡◌, refl, arith, ◌==◌,
  length, length-append, is_nil, all, ok, err, Bool-cases, inl, inr,
}
use ssh_sign.Text.Bytes.{Bytes, trim_left}
use ssh_sign.Signers.Fields.{
  unterminated_quote, out_of_fuel, Fields, flush_field, is_separator, is_escaped_quote, field_byte,
  fields_loop, split_fields,
}

length-trim_left : (f : ℕ → Bool) (s : Bytes) → length (trim_left f s) ≤ length s
unfolding trim_left
length-trim_left f [] = omega arith
length-trim_left f (c ∷ s) = ground (arith, length-trim_left f s)

all-append {ℓ} :
    {A : Type ℓ} (f : A → Bool) (xs ys : List A) → all f (xs ++ ys) ≡ (all f xs && all f ys)
all-append f [] ys = refl
all-append f (x ∷ xs) ys = ground (arith, all-append f xs ys)

abbrev pub is_not_empty : Bytes → Bool
is_not_empty s = not (is_nil s)

-- Fields in order: none is empty, and there are at most `limit`.
abbrev pub InOrder : ℕ → List Bytes → Type 0
InOrder limit out = (all is_not_empty out ≡ true) × (length out ≤ limit)

-- The loop ends with fields in order, or at an open quote: never for want of fuel.
abbrev pub EndsInOrder : ℕ → Fields → Type 0
EndsInOrder limit (ok (out, rest)) = InOrder limit out
EndsInOrder limit (err unterminated_quote) = Unit
EndsInOrder limit (err out_of_fuel) = ⊥

flush-InOrder :
    (limit : ℕ) (b : Bytes) (out : List Bytes)
    → all is_not_empty out ≡ true
    → length out < limit
    → InOrder limit (flush_field b out)
flush-InOrder limit [] out h l = (h, omega arith)
flush-InOrder limit (c ∷ b) out h l = (
  ground (arith, all-append is_not_empty out ((c ∷ b) ∷ [])),
  omega (arith, length-append out ((c ∷ b) ∷ [])),
)

-- The loop on what follows a byte, with enough fuel for it.
abbrev Onward : ℕ → Bytes → (Bool → Bytes → List Bytes → Bytes → Fields) → Type 0
Onward limit s go =
    (q : Bool) (b : Bytes) (out : List Bytes) (t : Bytes)
    → length t ≤ length s
    → all is_not_empty out ≡ true
    → length out < limit
    → EndsInOrder limit (go q b out t)

field_byte-EndsInOrder :
    (limit : ℕ) (q : Bool) (b : Bytes) (out : List Bytes) (c : ℕ) (s : Bytes)
    (go : Bool → Bytes → List Bytes → Bytes → Fields)
    → Onward limit s go
    → all is_not_empty out ≡ true
    → length out < limit
    → EndsInOrder limit (field_byte limit q b out c s go)
unfolding field_byte
field_byte-EndsInOrder limit q b out c s go onward h l = elim (Bool-cases (c == b'"')) [
  | inl quote ↦ rw quote (onward (not q) (b ++ c ∷ []) out s (omega arith) h l)
  | inr plain ↦ elim (Bool-cases (not q && is_separator c)) [
    | inr inside ↦ rw (plain, inside) (onward q (b ++ c ∷ []) out s (omega arith) h l)
    | inl space ↦ elim (Bool-cases (length (flush_field b out) == limit)) [
      | inl full ↦ rw (plain, space, full) (flush-InOrder limit b out h l)
      | inr room ↦
          let (h', l') = flush-InOrder limit b out h l in
          rw (plain, space, room)
            (onward q [] (flush_field b out) (trim_left is_separator s)
              (length-trim_left is_separator s) h' (ground arith))
    ]
  ]
]

loop-EndsInOrder :
    (limit fuel : ℕ) (q : Bool) (b : Bytes) (out : List Bytes) (s : Bytes)
    → length s ≤ fuel
    → all is_not_empty out ≡ true
    → length out < limit
    → EndsInOrder limit (fields_loop limit fuel q b out s)
unfolding fields_loop
loop-EndsInOrder limit fuel true b out [] f h l = tt
loop-EndsInOrder limit fuel false b out [] f h l = flush-InOrder limit b out h l
loop-EndsInOrder limit zero q b out (c ∷ s) f h l = absurd (omega arith)
loop-EndsInOrder limit (suc fuel) q b out (c ∷ []) f h l =
    field_byte-EndsInOrder limit q b out c [] (fields_loop limit fuel)
      (λ q' b' out' t n h' l'. loop-EndsInOrder limit fuel q' b' out' t (omega arith) h' l') h l
loop-EndsInOrder limit (suc fuel) q b out (c ∷ d ∷ s) f h l =
    elim (Bool-cases (q && is_escaped_quote (c ∷ d ∷ s))) [
      | inl escaped ↦
          rw escaped (loop-EndsInOrder limit fuel q (b ++ c ∷ d ∷ []) out s (omega arith) h l)
      | inr plain ↦ rw plain (
          field_byte-EndsInOrder limit q b out c (d ∷ s) (fields_loop limit fuel)
            (λ q' b' out' t n h' l'. loop-EndsInOrder limit fuel q' b' out' t (omega arith) h' l') h
            l)
    ]

-- Splitting always ends by itself: with an open quote, or with at most as many fields as were
-- asked for (one at least), none of them empty.
pub split_fields-EndsInOrder :
    (line : Bytes) (limit : ℕ) → 0 < limit → EndsInOrder limit (split_fields line limit)
unfolding split_fields
split_fields-EndsInOrder line limit pos =
    loop-EndsInOrder limit (length line) false [] [] line (omega arith) refl (omega arith)
