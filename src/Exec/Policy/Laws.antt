-- ===== src/Exec/Policy/Laws.antt =====
-- What an admitted execution may use: a program, a directory and an environment that the policy
-- names, within its limits.
use token_shrinker.Prelude.{
  ◌≡◌, refl, ◌≤◌, true, false, not, ◌||◌, Option, none, some, List, [], ◌∷◌, any, All, All-imp, ok,
  map_err, map_err-eq-ok, refuse_if-eq-ok, >>=-eq-ok, ok_injective, arith, Bool-cases, inl, inr,
}
use token_shrinker.Prelude.Bytes.{Bytes, eq_bytes_iff}
use token_shrinker.Prelude.Map.{All-upsert}
use token_shrinker.Exec.Policy.{
  System, ExecutionRequest, ExecutionPolicy, AdmittedExecution, set_contains, insert, insert_some,
  inherit, admit_directory, admit_program, admitted_with, request_environment, admit, program_io,
  working_directory_io, program_denied, working_directory_denied, environment_denied,
}

-- The policy lets a process see the variable.
abbrev pub IsVisible : ExecutionPolicy → Bytes → Type 0
IsVisible policy key =
    (set_contains policy.inherited_environment key ≡ true)
    × (set_contains policy.denied_environment key ≡ false)

All-set_contains : (set : List Bytes) → All (λ x. set_contains set x ≡ true) set
All-set_contains [] = tt
All-set_contains (x ∷ xs) = (
  ground (arith, (eq_bytes_iff x x).1 refl),
  All-imp (λ y. set_contains xs y ≡ true) (λ y. set_contains (x ∷ xs) y ≡ true)
      (λ y h. ground arith) xs (All-set_contains xs),
)

All-insert :
    (P : Bytes → Type 0) (key value : Bytes) (environment : List (Bytes × Bytes))
    → P key
    → All (λ e. P e.0) environment
    → All (λ e. P e.0) (insert key value environment)
All-insert P key value environment p a =
    All-upsert (λ e. P e.0) key (λ _. value) value environment p (λ j w e q. q) a

module _ {I : Type 0} (system : System I) (policy : ExecutionPolicy) where
  All-insert_some :
      (key : Bytes) (found : Option Bytes) (environment : List (Bytes × Bytes))
      → IsVisible policy key
      → All (λ e. IsVisible policy e.0) environment
      → All (λ e. IsVisible policy e.0) (insert_some key found environment)
  All-insert_some key none environment p a = a
  All-insert_some key (some value) environment p a =
      All-insert (IsVisible policy) key value environment p a

  inherit-IsVisible :
      (keys : List Bytes) (environment : List (Bytes × Bytes))
      → All (λ k. set_contains policy.inherited_environment k ≡ true) keys
      → All (λ e. IsVisible policy e.0) environment
      → All (λ e. IsVisible policy e.0) (inherit system policy.denied_environment keys environment)
  unfolding inherit
  inherit-IsVisible [] environment k a = a
  inherit-IsVisible (key ∷ keys) environment (p, k) a =
      elim (Bool-cases (set_contains policy.denied_environment key)) [
        | inl e ↦ rw e (inherit-IsVisible keys environment k a)
        | inr e ↦ rw e (
            inherit-IsVisible keys (insert_some key (system.environment_value key) environment) k
              (All-insert_some key (system.environment_value key) environment (p, e) a))
      ]

  request_environment-IsVisible :
      (requested environment : List (Bytes × Bytes)) (result : List (Bytes × Bytes))
      → All (λ e. IsVisible policy e.0) environment
      → request_environment {I = I} policy requested environment ≡ ok result
      → All (λ e. IsVisible policy e.0) result
  unfolding request_environment
  request_environment-IsVisible [] environment result a h =
      rw (← ok_injective environment result h) a
  request_environment-IsVisible ((key, value) ∷ requested) environment result a h =
      let (test, k) =
        refuse_if-eq-ok
          (set_contains policy.denied_environment key
            || not (set_contains policy.inherited_environment key))
          (environment_denied key)
          (request_environment {I = I} policy requested (insert key value environment)) h in
      request_environment-IsVisible requested (insert key value environment) result
        (All-insert (IsVisible policy) key value environment (ground arith) a) k

  -- The promise of the policy to the caller: what the admitted execution uses is named by it.
  pub record IsAllowed (request : ExecutionRequest) (admitted : AdmittedExecution) : Type 0 where
    pub program_is : system.canonicalize request.program ≡ ok admitted.program
    pub args_are : admitted.args ≡ request.args
    pub program_allowed : set_contains policy.allowed_programs admitted.program ≡ true
    pub program_not_denied : set_contains policy.denied_programs admitted.program ≡ false
    pub directory_is : system.canonicalize request.working_directory ≡ ok admitted.working_directory
    pub is_directory : system.is_dir admitted.working_directory ≡ true
    pub in_root :
        any (system.path_starts_with admitted.working_directory) policy.allowed_roots ≡ true
    pub visible : All (λ e. IsVisible policy e.0) admitted.environment
    pub in_time : admitted.timeout ≤ policy.max_timeout
    pub capped : admitted.output_cap ≡ policy.max_output_bytes_per_stream

  admit_directory-IsAllowed :
      (request : ExecutionRequest) (program directory : Bytes) (admitted : AdmittedExecution)
      → system.canonicalize request.program ≡ ok program
      → set_contains policy.allowed_programs program ≡ true
      → set_contains policy.denied_programs program ≡ false
      → system.canonicalize request.working_directory ≡ ok directory
      → admit_directory system policy request program directory ≡ ok admitted
      → IsAllowed request admitted
  unfolding admit_directory
  admit_directory-IsAllowed request program directory admitted p a d w h =
      let (test, k) =
        refuse_if-eq-ok
          (not (system.is_dir directory)
            || not (any (system.path_starts_with directory) policy.allowed_roots))
          (working_directory_denied directory) _ h in
      let start = inherit system policy.denied_environment policy.inherited_environment [] in
      let (environment, r, k') =
        >>=-eq-ok (request_environment policy request.environment start) _ k in
      rw (← ok_injective (admitted_with policy request program directory environment) admitted k')
        (record {
          program_is = p;
          args_are = refl;
          program_allowed = a;
          program_not_denied = d;
          directory_is = w;
          is_directory = ground arith;
          in_root = ground arith;
          visible =
              request_environment-IsVisible request.environment start environment
                (inherit-IsVisible policy.inherited_environment []
                  (All-set_contains policy.inherited_environment) tt)
                r;
          in_time = omega arith;
          capped = refl;
        })

  admit_program-IsAllowed :
      (request : ExecutionRequest) (program : Bytes) (admitted : AdmittedExecution)
      → system.canonicalize request.program ≡ ok program
      → admit_program system policy request program ≡ ok admitted
      → IsAllowed request admitted
  unfolding admit_program
  admit_program-IsAllowed request program admitted p h =
      let (test, k) =
        refuse_if-eq-ok
          (set_contains policy.denied_programs program
            || not (set_contains policy.allowed_programs program))
          (program_denied program) _ h in
      let found = map_err working_directory_io (system.canonicalize request.working_directory) in
      let (directory, r, k') = >>=-eq-ok found (admit_directory system policy request program) k in
      admit_directory-IsAllowed request program directory admitted p (ground arith) (ground arith)
        (map_err-eq-ok working_directory_io (system.canonicalize request.working_directory)
          directory r)
        k'

  -- An admitted request runs the canonical path of its program, with its arguments, which the policy allows and
  -- does not deny, in a directory under an allowed root; every variable of its environment is
  -- inherited and not denied, its timeout is within the limit and its output has the policy's cap.
  pub admit-IsAllowed :
      (request : ExecutionRequest) (admitted : AdmittedExecution)
      → admit system policy request ≡ ok admitted
      → IsAllowed request admitted
  unfolding admit
  admit-IsAllowed request admitted h =
      let found = map_err program_io (system.canonicalize request.program) in
      let (program, r, k) = >>=-eq-ok found (admit_program system policy request) h in
      admit_program-IsAllowed request program admitted
        (map_err-eq-ok program_io (system.canonicalize request.program) program r) k
