-- ===== src/Types/RequestId/Laws.antt =====
-- What `RequestId::new` accepts, and how it classifies the rest.
use token_shrinker.Prelude.{◌≤◌, ◌<◌, ◌≡◌, refl, ◌↔◌, All, all, length, true, [], ◌∷◌, ok, arith}
use token_shrinker.Prelude.Bytes.{Bytes, is_ascii_byte}
use token_shrinker.Types.RequestId.{RequestId, new}

-- The documented shape of a request identifier.
pub record IsRequestId (v : Bytes) : Type 0 where
  pub nonempty : 0 < length v
  pub bounded : length v ≤ 128
  pub is_ascii : All (λ b. b < 128) v

all_ascii_iff : (v : Bytes) → (all is_ascii_byte v ≡ true) ↔ All (λ b. b < 128) v
all_ascii_iff [] = (λ h. tt, λ h. refl)
all_ascii_iff (b ∷ v) = ground (arith, all_ascii_iff v)

-- `RequestId::new` succeeds exactly on the nonempty ASCII texts of at most 128 bytes, and the
-- identifier that it returns is the text itself.
pub new_iff :
    (v : Bytes) (id : RequestId) → (new v ≡ ok id) ↔ (IsRequestId v × (id ≡ record { value = v }))
unfolding new
new_iff [] id = ground arith
new_iff (b ∷ v) id = ground (arith, all_ascii_iff (b ∷ v))
