-- ===== src/Prelude/Results.antt =====
-- `Result<T, E>` and the `?` operator.
use mathlib.Core.Path.{◌≡◌, refl, ap}
use mathlib.Core.Bool.{Bool, true, false}
use mathlib.Core.Option.{Option, none, some}

pub data Result {ℓ κ} (T : Type ℓ) (E : Type κ) : Type (ℓ ⊔ κ) where
  ok : T → Result T E
  err : E → Result T E

-- `Option::ok_or`
abbrev pub ok_or {ℓ κ} : {T : Type ℓ} {E : Type κ} → Option T → E → Result T E
ok_or none failure = err failure
ok_or (some value) failure = ok value

-- `Result::and_then`
abbrev pub ◌>>=◌ {ℓ κ μ} :
    {E : Type μ} {T : Type ℓ} {U : Type κ} → Result T E → (T → Result U E) → Result U E
err failure >>= k = err failure
ok value >>= k = k value

-- `Result::and`
abbrev pub ◌>>◌ {ℓ κ μ} :
    {E : Type μ} {T : Type ℓ} {U : Type κ} → Result T E → Result U E → Result U E
err failure >> second = err failure
ok _ >> second = second

infixl 5 ◌>>=◌ ◌>>◌
-- Where a `?` let the value through.
pub >>=-eq-ok {ℓ κ μ} :
    {E : Type μ} {T : Type ℓ} {U : Type κ} (first : Result T E) (k : T → Result U E) {u : U}
    → (first >>= k) ≡ ok u
    → (t : T) × (first ≡ ok t) × (k t ≡ ok u)
>>=-eq-ok (err failure) k h = cc
>>=-eq-ok (ok value) k h = (value, refl, h)

pub >>-eq-ok {ℓ κ} :
    {E : Type ℓ} {U : Type κ} (first : Result (Unit {0}) E) (second : Result U E) {u : U}
    → (first >> second) ≡ ok u
    → (first ≡ ok tt) × (second ≡ ok u)
>>-eq-ok (err failure) second h = cc
>>-eq-ok (ok tt) second h = (refl, h)

pub ok_injective {ℓ κ} :
    {E : Type ℓ} {T : Type κ} (x y : T) → ◌≡◌ {A = Result T E} (ok x) (ok y) → x ≡ y
ok_injective x y h = cc

-- An early return with an error, when the test holds.
abbrev pub refuse_if {ℓ} : {E : Type ℓ} → Bool → E → Result (Unit {0}) E
refuse_if true e = err e
refuse_if false e = ok tt

pub refuse_if-eq-ok {ℓ κ} :
    {E : Type ℓ} {T : Type κ} (test : Bool) (e : E) (rest : Result T E) {t : T}
    → (refuse_if test e >> rest) ≡ ok t
    → (test ≡ false) × (rest ≡ ok t)
refuse_if-eq-ok true e rest h = cc
refuse_if-eq-ok false e rest h = (refl, h)

-- `map_err`
abbrev pub map_err {ℓ κ μ} :
    {E : Type ℓ} {F : Type κ} {T : Type μ} → (E → F) → Result T E → Result T F
map_err wrap (err e) = err (wrap e)
map_err wrap (ok value) = ok value

pub map_err-eq-ok {ℓ κ μ} :
    {E : Type ℓ} {F : Type κ} {T : Type μ} (wrap : E → F) (r : Result T E) (t : T)
    → map_err wrap r ≡ ok t
    → r ≡ ok t
map_err-eq-ok wrap (err e) t h = cc
map_err-eq-ok wrap (ok value) t h = ap ok (ok_injective value t h)
