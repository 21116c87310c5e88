-- ===== src/Repo/Paths/Laws.antt =====
-- A handle leads back to its path, and no handle leads out of the root.
use mathlib.Core.Option
use mathlib.Core.Option.{some-injective}
use token_shrinker.Prelude.{
  map, ℕ, zero, suc, length, ◌≤◌, ◌+◌, ◌*◌, ◌/◌, ◌%◌, ◌≡◌, refl, ap, ◌∙◌, ◌<◌, Bool, true, false,
  not, Option, none, some, List, [], ◌∷◌, ◌++◌, any, All, ◌==◌, arith, Bool-cases, inl, inr, ok,
  ok_or, >>=-eq-ok, refuse_if-eq-ok, ok_injective, bind-eq-some,
}
use token_shrinker.Prelude.Bytes.{Bytes, IsByte}
use token_shrinker.Repo.Paths.{
  invalid_encoded_path, PathComponent, normal, special, slash, join_parts, normal_parts,
  normalized_relative, joined_unless_empty, is_plain, upper_hex_digit, encode_path, hex_value,
  escaped, decode_loop, put_byte, split_slash, is_refused_part, push_parts, decode_relative_path,
}

hex_value-upper_hex_digit : (n : ℕ) → n < 16 → hex_value (upper_hex_digit n) ≡ some n
unfolding hex_value
hex_value-upper_hex_digit n h = ground arith

is_plain-ne : (b : ℕ) → is_plain b ≡ true → (b == b'%') ≡ false
is_plain-ne b h = ground arith

decode_loop-plain :
    (turns b : ℕ) (bs rest : Bytes)
    → (b == b'%') ≡ false
    → decode_loop turns bs ≡ some rest
    → decode_loop (suc turns) (b ∷ bs) ≡ some (b ∷ rest)
unfolding decode_loop
decode_loop-plain turns b bs rest n e = ground (arith, n, e)

decode_loop-escaped :
    (turns high low : ℕ) (bs rest : Bytes)
    → high < 16
    → low < 16
    → decode_loop turns bs ≡ some rest
    → decode_loop (suc turns) (b'%' ∷ upper_hex_digit high ∷ upper_hex_digit low ∷ bs)
      ≡ some ((high * 16 + low) ∷ rest)
unfolding decode_loop escaped
decode_loop-escaped turns high low bs rest h l e =
    rw (hex_value-upper_hex_digit high h, hex_value-upper_hex_digit low l, e) refl

decode_loop-nil : (turns : ℕ) → decode_loop turns [] ≡ some []
unfolding decode_loop
decode_loop-nil zero = refl
decode_loop-nil (suc turns) = refl

-- Decoding an encoded path gives the path.
decode_loop-encode_path :
    (turns : ℕ) (path : Bytes)
    → length (encode_path path) ≤ turns
    → All IsByte path
    → decode_loop turns (encode_path path) ≡ some path
unfolding encode_path
decode_loop-encode_path turns [] n a = decode_loop-nil turns
decode_loop-encode_path zero (b ∷ bs) n a = absurd (ground (arith, n))
decode_loop-encode_path (suc m) (b ∷ bs) n (h, a) = elim (Bool-cases (is_plain b)) [
  | inl e ↦ rw e (
      decode_loop-plain m b (encode_path bs) bs (is_plain-ne b e)
        (decode_loop-encode_path m bs (ground (arith, e, n)) a))
  | inr e ↦
      let same : b / 16 * 16 + b % 16 ≡ b = omega arith in
      rw e (
        decode_loop-escaped m (b / 16) (b % 16) (encode_path bs) bs (omega (arith, h)) (omega arith)
          (decode_loop-encode_path m bs (ground (arith, e, n)) a)
        ∙ ap (λ k. some (k ∷ bs)) same)
]

-- A part that names an entry of a directory.
pub record IsNormal (part : Bytes) : Type 0 where
  pub accepted : is_refused_part part ≡ false
  pub whole : any (λ b. b == slash) part ≡ false

split_slash-append :
    (part rest : Bytes)
    → any (λ b. b == slash) part ≡ false
    → split_slash (part ++ (slash ∷ rest)) ≡ part ∷ split_slash rest
unfolding split_slash
split_slash-append [] rest h = refl
split_slash-append (b ∷ part) rest h =
    let here : (b == slash) ≡ false = ground (arith, h) in
    rw (here, split_slash-append part rest (ground (arith, h))) refl

split_slash-whole :
    (part : Bytes) → any (λ b. b == slash) part ≡ false → split_slash part ≡ part ∷ []
unfolding split_slash
split_slash-whole [] h = refl
split_slash-whole (b ∷ part) h =
    let here : (b == slash) ≡ false = ground (arith, h) in
    rw (here, split_slash-whole part (ground (arith, h))) refl

split_slash-join_parts :
    (part : Bytes) (parts : List Bytes)
    → All IsNormal (part ∷ parts)
    → split_slash (join_parts (part ∷ parts)) ≡ part ∷ parts
unfolding join_parts
split_slash-join_parts part [] (n, a) = split_slash-whole part n.whole
split_slash-join_parts part (next ∷ parts) (n, a) =
    split_slash-append part (join_parts (next ∷ parts)) n.whole
    ∙ ap (◌∷◌ part) (split_slash-join_parts next parts a)

push_parts-IsNormal : (parts : List Bytes) → All IsNormal parts → push_parts parts ≡ ok parts
unfolding push_parts
push_parts-IsNormal [] a = refl
push_parts-IsNormal (part ∷ parts) (n, a) = rw (n.accepted, push_parts-IsNormal parts a) refl

push_parts-eq-ok :
    (parts path : List Bytes)
    → push_parts parts ≡ ok path
    → (parts ≡ path) × All (λ p. is_refused_part p ≡ false) parts
unfolding push_parts
push_parts-eq-ok [] path h = (ok_injective [] path h, tt)
push_parts-eq-ok (part ∷ parts) path h =
    let (fine, h1) = refuse_if-eq-ok (is_refused_part part) invalid_encoded_path _ h in
    let (rest, r, h2) = >>=-eq-ok (push_parts parts) _ h1 in
    let (same, a) = push_parts-eq-ok parts rest r in
    (ap (◌∷◌ part) same ∙ ok_injective (part ∷ rest) path h2, (fine, a))

put_byte-whole :
    (b : ℕ) (parts : List Bytes)
    → (b == slash) ≡ false
    → All (λ p. any (λ c. c == slash) p ≡ false) parts
    → All (λ p. any (λ c. c == slash) p ≡ false) (put_byte b parts)
put_byte-whole b [] n a = (rw n refl, tt)
put_byte-whole b (part ∷ parts) n (h, a) = (rw (n, h) refl, a)

split_slash-parts : (bs : Bytes) → All (λ p. any (λ c. c == slash) p ≡ false) (split_slash bs)
unfolding split_slash
split_slash-parts [] = (refl, tt)
split_slash-parts (b ∷ bs) = elim (Bool-cases (b == slash)) [
  | inl e ↦ rw e (refl, split_slash-parts bs)
  | inr e ↦ rw e (put_byte-whole b (split_slash bs) e (split_slash-parts bs))
]

All-IsNormal :
    (parts : List Bytes)
    → All (λ p. is_refused_part p ≡ false) parts
    → All (λ p. any (λ c. c == slash) p ≡ false) parts
    → All IsNormal parts
All-IsNormal [] a b = tt
All-IsNormal (part ∷ parts) (p, a) (q, b) =
    (record { accepted = p; whole = q }, All-IsNormal parts a b)

-- A handle that is accepted names a file below the root: no part of its path is empty, is the
-- directory itself or its parent, or holds a slash.
pub decode_relative_path-IsNormal :
    (is_utf8 : Bytes → Bool) (encoded : Bytes) (path : List Bytes)
    → decode_relative_path is_utf8 encoded ≡ ok path
    → All IsNormal path
unfolding decode_relative_path
decode_relative_path-IsNormal is_utf8 encoded path h =
    let (decoded, d, h1) =
      >>=-eq-ok (ok_or (decode_loop (length encoded) encoded) invalid_encoded_path) _ h in
    let (utf8, h2) =
      refuse_if-eq-ok (not (is_utf8 decoded)) invalid_encoded_path
        (push_parts (split_slash decoded)) h1 in
    let (same, fine) = push_parts-eq-ok (split_slash decoded) path h2 in
    rw (← same) (All-IsNormal (split_slash decoded) fine (split_slash-parts decoded))

-- What the standard library promises of a normal component.
abbrev pub ComponentIsNormal : PathComponent → Type 0
ComponentIsNormal (normal part) = IsNormal part
ComponentIsNormal special = Unit

normal_parts-eq-some :
    (is_utf8 : Bytes → Bool) (components : List PathComponent) (parts : List Bytes)
    → normal_parts is_utf8 components ≡ some parts
    → All ComponentIsNormal components
    → (map normal parts ≡ components) × All IsNormal parts
unfolding normal_parts
normal_parts-eq-some is_utf8 [] parts h a = rw (← some-injective [] parts h) (refl, tt)
normal_parts-eq-some is_utf8 (special ∷ components) parts h a = cc
normal_parts-eq-some is_utf8 (normal part ∷ components) parts h (n, a) =
    elim (Bool-cases (is_utf8 part)) [
      | inl e ↦
          later (λ rest r. normal_parts-eq-some is_utf8 components rest r a)
            (normal_parts is_utf8 components) refl (rw e at h)
      | inr e ↦ let refused = (rw e at h) in cc
    ]
  where
    later :
        ((rest : List Bytes)
          → normal_parts is_utf8 components ≡ some rest
          → (map normal rest ≡ components) × All IsNormal rest)
        → (o : Option (List Bytes)) → normal_parts is_utf8 components ≡ o
        → Option.map (◌∷◌ part) o ≡ some parts
        → (map normal parts ≡ normal part ∷ components) × All IsNormal parts
    later normal_rest none r g = cc
    later normal_rest (some rest) r g =
        let (same, fine) = normal_rest rest r in
        rw (← some-injective (part ∷ rest) parts g) (ap (◌∷◌ (normal part)) same, (n, fine))

joined_unless_empty-eq-some :
    (parts : List Bytes) (path : Bytes)
    → joined_unless_empty parts ≡ some path
    → All IsNormal parts
    → (join_parts parts ≡ path) × (split_slash path ≡ parts)
unfolding joined_unless_empty
joined_unless_empty-eq-some [] path h a = cc
joined_unless_empty-eq-some (part ∷ parts) path h a =
    let same = some-injective (join_parts (part ∷ parts)) path h in
    (same, rw (← same) (split_slash-join_parts part parts a))

-- The handle of a path that a scan found, made of normal components, leads back to the same components,
-- if the path is UTF-8.
pub decode_relative_path-encode_path :
    (is_utf8 : Bytes → Bool) (components : List PathComponent) (path : Bytes)
    → All ComponentIsNormal components
    → normalized_relative is_utf8 components ≡ some path
    → All IsByte path
    → is_utf8 path ≡ true
    → (parts : List Bytes) × (map normal parts ≡ components)
      × (decode_relative_path is_utf8 (encode_path path) ≡ ok parts)
unfolding normalized_relative decode_relative_path
decode_relative_path-encode_path is_utf8 components path a h bytes utf8 =
    let (parts, p, j) = bind-eq-some (normal_parts is_utf8 components) joined_unless_empty h in
    let (same, fine) = normal_parts-eq-some is_utf8 components parts p a in
    let (joined, split) = joined_unless_empty-eq-some parts path j fine in
    (
      parts,
      same,
      rw (decode_loop-encode_path (length (encode_path path)) path (omega arith) bytes, utf8, split)
          (push_parts-IsNormal parts fine),
    )
