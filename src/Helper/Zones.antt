-- ===== src/Helper/Zones.antt =====
-- Which timestamps of the command line are accepted.
use ssh_sign.Prelude.{
  true, Option, none, some, ok, ◌≡◌, refl, ◌∙◌, ◌↔◌, ◌⊎◌, inl, inr, arith, List, [], ◌∷◌,
  Bool-cases, Option-cases,
}
use ssh_sign.Text.Bytes.{Bytes, codes, bytes_eq, bytes_eq_iff}
use ssh_sign.Signers.Timestamp.{Time}
use ssh_sign.Helper.{
  Layout, rfc1123, Parser, zoned_formats, local_formats, zone_of, is_utc, first_of, parse_timestamp,
  named_zone, local_timestamp,
}

module _ (read : Layout → Option Time) where
  -- The first layout that fits gives the time, and no layout fits.
  abbrev pub IsFirst : Time → List Layout → Type 0
  IsFirst t [] = ⊥
  IsFirst t (l ∷ ls) = (read l ≡ some t) ⊎ ((read l ≡ none) × IsFirst t ls)

  abbrev pub NoneFits : List Layout → Type 0
  NoneFits [] = Unit
  NoneFits (l ∷ ls) = (read l ≡ none) × NoneFits ls

  first_of-eq-some_iff : (ls : List Layout) (t : Time) → (first_of read ls ≡ some t) ↔ IsFirst t ls
  unfolding first_of
  first_of-eq-some_iff [] t = (λ h. cc, λ h. absurd h)
  first_of-eq-some_iff (l ∷ ls) t = elim (Option-cases (read l)) [
    | inl n ↦
        let (f, g) = first_of-eq-some_iff ls t in
        (
          λ h. inr (n, f (rw (n, first_of) at h)),
          λ h. elim h [ inl e ↦ cc | inr r ↦ rw (n, first_of) (g r.1) ],
        )
    | inr (u, e) ↦ (
      λ h. inl (e ∙ (rw (e, first_of) at h)),
      λ h. elim h [ inl d ↦ rw (d, first_of) | inr r ↦ cc ],
    )
  ]

  first_of-eq-none_iff : (ls : List Layout) → (first_of read ls ≡ none) ↔ NoneFits ls
  unfolding first_of
  first_of-eq-none_iff [] = (λ h. tt, λ h. refl)
  first_of-eq-none_iff (l ∷ ls) = elim (Option-cases (read l)) [
    | inl n ↦
        let (f, g) = first_of-eq-none_iff ls in
        (λ h. (n, f (rw (n, first_of) at h)), λ h. rw (n, first_of) (g h.1))
    | inr (u, e) ↦ (λ h. cc (rw (e, first_of) at h), λ h. cc)
  ]

module _ (parse_time parse_local : Parser) (s : Bytes) where
  abbrev zoned_reader : Layout → Option Time
  zoned_reader l = parse_time l s

  abbrev local_reader : Layout → Option Time
  local_reader l = parse_local l s

  abbrev HasUniversalZone : Type 0
  HasUniversalZone = (zone_of s ≡ codes "UTC") ⊎ (zone_of s ≡ codes "GMT")

  -- A time is read as RFC 1123 with a name of UTC, or else in the local zone.
  abbrev pub IsNamed : Time → Type 0
  IsNamed t =
      ((parse_time rfc1123 s ≡ some t) × HasUniversalZone)
      ⊎ ((parse_time rfc1123 s ≡ none) × IsFirst local_reader t local_formats)

  universal_zone : (is_utc (zone_of s) ≡ true) ↔ HasUniversalZone
  universal_zone = (
    λ h. elim (Bool-cases (bytes_eq (zone_of s) (codes "UTC"))) [
      | inl u ↦ inl ((bytes_eq_iff _ _).0 u)
      | inr n ↦ inr ((bytes_eq_iff _ _).0 (ground arith))
    ],
    λ h. elim h [
      | inl u ↦ let e = (bytes_eq_iff (zone_of s) (codes "UTC")).1 u in ground arith
      | inr g ↦ let e = (bytes_eq_iff (zone_of s) (codes "GMT")).1 g in ground arith
    ],
  )

  local_timestamp_iff :
      (t : Time)
      → (local_timestamp parse_time parse_local s ≡ ok t) ↔ IsFirst local_reader t local_formats
  unfolding local_timestamp
  local_timestamp_iff t = elim (Option-cases (first_of local_reader local_formats)) [
    | inl n ↦
        (λ h. cc (rw n at h), λ h. cc ((first_of-eq-some_iff local_reader local_formats t).1 h))
    | inr (u, e) ↦ (
      λ h. (first_of-eq-some_iff local_reader local_formats t).0 (cc (rw e at h, e)),
      λ h. cc ((first_of-eq-some_iff local_reader local_formats t).1 h),
    )
  ]

  named_zone_iff : (t : Time) → (named_zone parse_time parse_local s ≡ ok t) ↔ IsNamed t
  unfolding named_zone
  named_zone_iff t = elim (Option-cases (parse_time rfc1123 s)) [
    | inl n ↦ (
      λ h. inr (n, (local_timestamp_iff t).0 (rw (n, named_zone) at h)),
      λ h. elim h [ inl x ↦ cc (x.0) | inr x ↦ rw (n, named_zone) ((local_timestamp_iff t).1 x.1) ],
    )
    | inr (u, e) ↦ elim (Bool-cases (is_utc (zone_of s))) [
      | inl z ↦ (
        λ h. inl (e ∙ cc (rw (e, z, named_zone) at h), universal_zone.0 z),
        λ h. elim h [ inl x ↦ rw (x.0, z, named_zone) | inr x ↦ cc (x.0) ],
      )
      | inr z ↦ (
        λ h. cc (rw (e, z, named_zone) at h),
        λ h. elim h [ inl x ↦ cc (z, universal_zone.1 x.1) | inr x ↦ cc (x.0) ],
      )
    ]
  ]

  -- A timestamp is accepted exactly as the time of the first layout with a numeric zone that it
  -- fits; or, where it fits none of them, as RFC 1123 with the zone UTC or GMT; or, where it does
  -- not fit RFC 1123 either, in the first of the two layouts of the local zone.
  pub parse_timestamp_iff :
      (t : Time)
      → (parse_timestamp parse_time parse_local s ≡ ok t)
        ↔ (IsFirst zoned_reader t zoned_formats ⊎ (NoneFits zoned_reader zoned_formats × IsNamed t))
  unfolding parse_timestamp
  parse_timestamp_iff t =
      let found = first_of-eq-some_iff zoned_reader zoned_formats in
      elim (Option-cases (first_of zoned_reader zoned_formats)) [
        | inl n ↦ (
          λ h. inr (
            (first_of-eq-none_iff zoned_reader zoned_formats).0 n,
            (named_zone_iff t).0 (rw n at h),
          ),
          λ h. elim h [ inl x ↦ cc (n, (found t).1 x) | inr x ↦ rw n ((named_zone_iff t).1 x.1) ],
        )
        | inr (u, e) ↦ (
          λ h. inl ((found t).0 (e ∙ cc (rw e at h))),
          λ h. elim h [
            | inl x ↦ cc (e, (found t).1 x)
            | inr x ↦ cc (e, (first_of-eq-none_iff zoned_reader zoned_formats).1 x.0)
          ],
        )
      ]
