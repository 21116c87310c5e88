-- ===== src/Update/Newest.antt =====
-- The release that a check reports is the newest compatible one.
use Prim.Native.Nat.Ordering.{gt}
use token_shrinker.Prelude.{
  ℕ, suc, get_elem?, refl, All-imp, ◌≡◌, Bool, true, false, Option, none, some, List, [], ◌∷◌, All,
  if◌then◌else◌, arith, Bool-cases, inl, inr, ok, >>=-eq-ok, ok_injective,
}
use token_shrinker.Prelude.Order.{IsPreorder, Le, Le_trans, le_of_gt}
use token_shrinker.Prelude.Sort.{sort_by, IsSorted, sort_by-IsSorted, sort_by-All, All-sort_by}
use token_shrinker.Types.Protocol.{ProtocolVersion}
use token_shrinker.Update.{Release, Libraries, is_greater}
use token_shrinker.Update.Check.{
  find, version_of, protocol_matches, compatible_releases, newest_first, select_release,
}

module _ (L : Libraries) where
  -- The version is the release's, and its protocol range admits the version of the protocol.
  abbrev pub IsCompatible : ProtocolVersion → L.Version × Release → Type 0
  IsCompatible protocol (parsed, release) =
      (version_of L release.version ≡ ok parsed)
      × (protocol_matches L release.protocol protocol ≡ ok true)

  pub compatible_releases-IsCompatible :
      (protocol : ProtocolVersion) (releases : List Release) (cs : List (L.Version × Release))
      → compatible_releases L protocol releases ≡ ok cs
      → All (IsCompatible protocol) cs
  unfolding compatible_releases
  compatible_releases-IsCompatible protocol [] cs h = rw (← ok_injective [] cs h) tt
  compatible_releases-IsCompatible protocol (release ∷ releases) cs h =
      let (parsed, p, h1) = >>=-eq-ok (version_of L release.version) _ h in
      let (matches, m, h2) = >>=-eq-ok (protocol_matches L release.protocol protocol) _ h1 in
      let (rest, r, h3) = >>=-eq-ok (compatible_releases L protocol releases) _ h2 in
      let others = compatible_releases-IsCompatible protocol releases rest r in
      taken parsed matches rest p m others (ok_injective _ cs h3)
    where
      taken :
          (parsed : L.Version) (matches : Bool) (rest : List (L.Version × Release))
          → version_of L release.version ≡ ok parsed
          → protocol_matches L release.protocol protocol ≡ ok matches
          → All (IsCompatible protocol) rest
          → (if matches then (parsed, release) ∷ rest else rest) ≡ cs
          → All (IsCompatible protocol) cs
      taken parsed true rest p m a e = rw (← e) ((p, m), a)
      taken parsed false rest p m a e = rw (← e) a

  -- What the choice promises: nothing compatible is newer than what is installed, or the choice is
  -- newer, and nothing compatible is newer than it.
  abbrev pub IsNewest :
      L.Version → List (L.Version × Release) → Option (L.Version × Release) → Type 0
  IsNewest installed cs none = All (λ d. Le L.cmp_version d.0 installed) cs
  IsNewest installed cs (some c) =
      (L.cmp_version c.0 installed ≡ gt) × All (λ d. Le L.cmp_version d.0 c.0) cs

  abbrev pub Holds : (L.Version × Release → Type 0) → Option (L.Version × Release) → Type 0
  Holds Q none = Unit
  Holds Q (some c) = Q c

  -- The choice, if there is one, stands in the list.
  abbrev pub IsIn : List (L.Version × Release) → L.Version × Release → Type 0
  IsIn cs c = (n : ℕ) × (get_elem? cs n ≡ some c)

  pub IsIn-All : (cs : List (L.Version × Release)) → All (IsIn cs) cs
  IsIn-All [] = tt
  IsIn-All (c ∷ cs) =
      ((0, refl), All-imp (IsIn cs) (IsIn (c ∷ cs)) (λ d i. (suc i.0, i.1)) cs (IsIn-All cs))

  module _ (o : IsPreorder L.cmp_version) where
    newest_first-IsPreorder : IsPreorder (newest_first L)
    newest_first-IsPreorder = record {
      flip = λ a b. o.flip b.0 a.0;
      lt_trans = λ a b c p q. o.lt_trans c.0 b.0 a.0 q p;
      eq_lt = λ a b c p q. o.lt_eq c.0 b.0 a.0 q p;
      lt_eq = λ a b c p q. o.eq_lt c.0 b.0 a.0 q p;
      eq_trans = λ a b c p q. o.eq_trans c.0 b.0 a.0 q p;
    }

    Le_refl : (v : L.Version) → Le L.cmp_version v v
    Le_refl v = ground (arith, o.flip v v)

    put_before :
        (installed : L.Version) (x : L.Version × Release) (cs : List (L.Version × Release))
        (found : Option (L.Version × Release))
        → Le L.cmp_version x.0 installed
        → IsNewest installed cs found
        → IsNewest installed (x ∷ cs) found
    put_before installed x cs none l n = (l, n)
    put_before installed x cs (some c) l (g, n) = (
      g,
      (Le_trans L.cmp_version o x.0 installed c.0 l (le_of_gt L.cmp_version o c.0 installed g), n),
    )

    find-IsNewest :
        (installed : L.Version) (cs : List (L.Version × Release))
        → IsSorted (newest_first L) cs
        → IsNewest installed cs (find (λ c. is_greater (L.cmp_version c.0 installed)) cs)
    find-IsNewest installed [] s = tt
    find-IsNewest installed (x ∷ cs) (low, s) =
        elim (Bool-cases (is_greater (L.cmp_version x.0 installed))) [
          | inl e ↦ rw e (ground (arith, e), (Le_refl x.0, low))
          | inr e ↦
              let rest = find-IsNewest installed cs s in
              rw e (
                put_before installed x cs (find (λ c. is_greater (L.cmp_version c.0 installed)) cs)
                  (ground (arith, e)) rest)
        ]

    IsNewest-sort_by :
        (installed : L.Version) (cs : List (L.Version × Release))
        (found : Option (L.Version × Release))
        → IsNewest installed (sort_by (newest_first L) cs) found
        → IsNewest installed cs found
    IsNewest-sort_by installed cs none n =
        sort_by-All (newest_first L) (λ d. Le L.cmp_version d.0 installed) cs n
    IsNewest-sort_by installed cs (some c) (g, n) =
        (g, sort_by-All (newest_first L) (λ d. Le L.cmp_version d.0 c.0) cs n)

    pub select_release-IsNewest :
        (installed : L.Version) (cs : List (L.Version × Release))
        → IsNewest installed cs (select_release L installed cs)
    unfolding select_release
    select_release-IsNewest installed cs =
        IsNewest-sort_by installed cs
          (find (λ c. is_greater (L.cmp_version c.0 installed)) (sort_by (newest_first L) cs))
          (find-IsNewest installed (sort_by (newest_first L) cs)
            (sort_by-IsSorted (newest_first L) newest_first-IsPreorder cs))

  find-Holds :
      (Q : L.Version × Release → Type 0) (p : L.Version × Release → Bool)
      (cs : List (L.Version × Release))
      → All Q cs
      → Holds Q (find p cs)
  find-Holds Q p [] a = tt
  find-Holds Q p (x ∷ cs) (h, a) = elim (Bool-cases (p x)) [
    | inl e ↦ rw e h
    | inr e ↦ rw e (find-Holds Q p cs a)
  ]

  -- What holds of every compatible release holds of the chosen one.
  pub select_release-Holds :
      (Q : L.Version × Release → Type 0) (installed : L.Version) (cs : List (L.Version × Release))
      → All Q cs
      → Holds Q (select_release L installed cs)
  unfolding select_release
  select_release-Holds Q installed cs a =
      find-Holds Q (λ c. is_greater (L.cmp_version c.0 installed)) (sort_by (newest_first L) cs)
        (All-sort_by (newest_first L) Q cs a)
