-- ===== src/Types/Route/Laws.antt =====
-- Parsing of mode names, and the reasons of a decision.
use token_shrinker.Prelude.{◌≡◌, refl, ◌↔◌, true, false, List, [], ◌∷◌, ◌++◌, ok, arith, map}
use token_shrinker.Prelude.Bytes.{
  Bytes, ascii, eq_bytes_iff, eq_ignore_ascii_case, to_ascii_lowercase,
}
use token_shrinker.Types.Route.{
  RouteMode, fast, build, deep, as_str, from_str, RouteReason, contains_reason, same_reason,
  RouteDecision, add_reason,
}

-- `from_str` accepts a text as a mode exactly when the text is the mode's name up to the case of
-- its ASCII letters.
pub from_str_iff :
    (v : Bytes) (m : RouteMode) → (from_str v ≡ ok m) ↔ (eq_ignore_ascii_case v (as_str m) ≡ true)
unfolding from_str
from_str_iff v fast = ground (arith, eq_bytes_iff (map to_ascii_lowercase v) (ascii "fast"))
from_str_iff v build = ground (
  arith,
  eq_bytes_iff (map to_ascii_lowercase v) (ascii "fast"),
  eq_bytes_iff (map to_ascii_lowercase v) (ascii "build"),
)
from_str_iff v deep = ground (
  arith,
  eq_bytes_iff (map to_ascii_lowercase v) (ascii "fast"),
  eq_bytes_iff (map to_ascii_lowercase v) (ascii "build"),
  eq_bytes_iff (map to_ascii_lowercase v) (ascii "deep"),
)

-- No reason is listed twice.
abbrev pub Distinct : List RouteReason → Type 0
Distinct [] = Unit
Distinct (r ∷ rs) = (contains_reason rs r ≡ false) × Distinct rs

same_reason_sym : (a b : RouteReason) → same_reason a b ≡ same_reason b a
unfolding same_reason
same_reason_sym a b = ground arith

contains_reason-snoc :
    (rs : List RouteReason) (a b : RouteReason)
    → contains_reason rs a ≡ false
    → same_reason b a ≡ false
    → contains_reason (rs ++ (b ∷ [])) a ≡ false
contains_reason-snoc [] a b p q = ground arith
contains_reason-snoc (r ∷ rs) a b p q = ground (arith, contains_reason-snoc rs a b)

Distinct-snoc :
    (rs : List RouteReason) (r : RouteReason)
    → contains_reason rs r ≡ false
    → Distinct rs
    → Distinct (rs ++ (r ∷ []))
Distinct-snoc [] r p d = (refl, tt)
Distinct-snoc (x ∷ rs) r p (q, d) =
    ground (arith, Distinct-snoc rs r, contains_reason-snoc rs x r, same_reason_sym x r)

-- `add_reason` never lists a reason twice.
pub add_reason-Distinct :
    (d : RouteDecision) (r : RouteReason) → Distinct d.reasons → Distinct (add_reason d r).reasons
unfolding add_reason
add_reason-Distinct d r h = ground (arith, Distinct-snoc d.reasons r)
