-- ===== src/Exec/Policy.antt =====
-- crates/ts-exec/src/lib.rs: `ExecutionPolicy`, which admits a request or refuses it. The file
-- system and the process environment are parameters; a path and an environment text are bytes,
-- and a duration is a number of nanoseconds. Keys of the environment are those of a system
-- other than Windows, where they are kept as they are.
pub mod Laws
use Prim.Native.Nat.Ordering.{lt, eq, gt}
use token_shrinker.Prelude.{
  ℕ, Bool, true, false, ◌&&◌, ◌||◌, not, Option, none, some, List, [], ◌∷◌, any, min, ◌==◌,
  if◌then◌else◌, Result, ok, err, refuse_if, map_err, ◌>>=◌, ◌>>◌,
}
use token_shrinker.Prelude.Bytes.{Bytes, eq_bytes, is_empty}
use token_shrinker.Prelude.Order.{cmp_bytes}
use token_shrinker.Prelude.Map.{upsert}

-- What the engine asks of the operating system; `I` is an I/O error.
pub record System (I : Type 0) : Type 0 where
  pub canonicalize : Bytes → Result Bytes I
  pub is_file : Bytes → Bool
  pub is_dir : Bytes → Bool
  pub path_starts_with : Bytes → Bytes → Bool
  pub environment_value : Bytes → Option Bytes

pub data ExecutionError (I : Type 0) : Type 0 where
  zero_limit empty_policy missing_pipe capture_thread : ExecutionError I
  program_io working_directory_io spawn wait capture : I → ExecutionError I
  program_denied working_directory_denied environment_denied : Bytes → ExecutionError I

pub record ExecutionRequest : Type 0 where
  pub program : Bytes
  pub args : List Bytes
  pub working_directory : Bytes
  pub environment : List (Bytes × Bytes)
  pub timeout : ℕ

pub record ExecutionPolicy : Type 0 where
  pub allowed_programs : List Bytes
  pub denied_programs : List Bytes
  pub allowed_roots : List Bytes
  pub inherited_environment : List Bytes
  pub denied_environment : List Bytes
  pub max_timeout : ℕ
  pub max_output_bytes_per_stream : ℕ

pub record AdmittedExecution : Type 0 where
  pub program : Bytes
  pub args : List Bytes
  pub working_directory : Bytes
  pub environment : List (Bytes × Bytes)
  pub timeout : ℕ
  pub output_cap : ℕ

-- `BTreeSet::insert`, on the elements in ascending order.
unfoldable pub set_insert : Bytes → List Bytes → List Bytes
set_insert x [] = x ∷ []
set_insert x (y ∷ ys) =
    let rest = set_insert x ys in
    elim (cmp_bytes x y) [ lt ↦ x ∷ y ∷ ys | eq ↦ y ∷ ys | gt ↦ y ∷ rest ]

-- `collect` into a set.
unfoldable pub set_of : List Bytes → List Bytes
unfolding set_insert
set_of [] = []
set_of (x ∷ xs) = set_insert x (set_of xs)

-- `BTreeSet::contains`
abbrev pub set_contains : List Bytes → Bytes → Bool
set_contains set x = any (λ y. eq_bytes y x) set

abbrev pub normalize_environment_key : Bytes → Bytes
normalize_environment_key key = key

-- `environment.insert(key, value)`
abbrev pub insert : Bytes → Bytes → List (Bytes × Bytes) → List (Bytes × Bytes)
insert key value environment = upsert key (λ _. value) value environment

abbrev pub insert_some : Bytes → Option Bytes → List (Bytes × Bytes) → List (Bytes × Bytes)
insert_some key none environment = environment
insert_some key (some value) environment = insert key value environment

-- The result of `admit` from its parts.
abbrev pub admitted_with :
    ExecutionPolicy → ExecutionRequest → Bytes → Bytes → List (Bytes × Bytes) → AdmittedExecution
admitted_with policy request program working_directory environment = record {
  program = program;
  args = request.args;
  working_directory = working_directory;
  environment = environment;
  timeout = min request.timeout policy.max_timeout;
  output_cap = policy.max_output_bytes_per_stream;
}

module _ {I : Type 0} where
  -- `fs::canonicalize` of every path with a test of each, in order; the first failure is the result.
  unfoldable pub canonical_paths :
      System I
      → (I → ExecutionError I)
      → (Bytes → ExecutionError I)
      → (Bytes → Bool)
      → List Bytes
      → Result (List Bytes) (ExecutionError I)
  canonical_paths system io denied test [] = ok []
  canonical_paths system io denied test (path ∷ paths) = do
    canonical ← map_err io (system.canonicalize path)
    refuse_if (not (test canonical)) (denied canonical)
    rest ← canonical_paths system io denied test paths
    ok (canonical ∷ rest)

  -- `canonical_set(paths, true)`
  unfoldable pub canonical_set : System I → List Bytes → Result (List Bytes) (ExecutionError I)
  unfolding canonical_paths set_of
  canonical_set system paths =
      canonical_paths system program_io program_denied system.is_file paths >>= λ found.
      ok (set_of found)

  unfoldable pub canonical_roots : System I → List Bytes → Result (List Bytes) (ExecutionError I)
  unfolding canonical_paths
  canonical_roots system =
      canonical_paths system working_directory_io working_directory_denied system.is_dir

  -- `ExecutionPolicy::new`
  unfoldable pub new :
      System I
      → List Bytes
      → List Bytes
      → List Bytes
      → List Bytes
      → List Bytes
      → ℕ
      → ℕ
      → Result ExecutionPolicy (ExecutionError I)
  unfolding canonical_set canonical_roots set_of
  new system allowed denied roots inherited denied_keys max_timeout max_output = do
    refuse_if (max_timeout == 0 || max_output == 0) zero_limit
    allowed_programs ← canonical_set system allowed
    denied_programs ← canonical_set system denied
    allowed_roots ← canonical_roots system roots
    refuse_if (is_empty allowed_programs || is_empty allowed_roots) empty_policy
    ok (record {
      allowed_programs = allowed_programs;
      denied_programs = denied_programs;
      allowed_roots = allowed_roots;
      inherited_environment = set_of inherited;
      denied_environment = set_of denied_keys;
      max_timeout = max_timeout;
      max_output_bytes_per_stream = max_output;
    })

  -- The first loop of `admit`: the values of the inherited keys that are not denied.
  unfoldable pub inherit :
      System I → List Bytes → List Bytes → List (Bytes × Bytes) → List (Bytes × Bytes)
  unfolding upsert
  inherit system denied [] environment = environment
  inherit system denied (key ∷ keys) environment = inherit system denied keys (
      if set_contains denied key
      then environment
      else insert_some key (system.environment_value key) environment)

  -- The second loop of `admit`: the requested values, whose keys must be inherited and not denied.
  unfoldable pub request_environment :
      ExecutionPolicy
      → List (Bytes × Bytes)
      → List (Bytes × Bytes)
      → Result (List (Bytes × Bytes)) (ExecutionError I)
  unfolding upsert
  request_environment policy [] environment = ok environment
  request_environment policy ((name, value) ∷ requested) environment =
      let key = normalize_environment_key name in
      let rest = request_environment policy requested (insert key value environment) in
      refuse_if
        (set_contains policy.denied_environment key
          || not (set_contains policy.inherited_environment key))
        (environment_denied key)
      >> rest

  -- `admit` once it has the canonical program and working directory.
  unfoldable pub admit_directory :
      System I
      → ExecutionPolicy
      → ExecutionRequest
      → Bytes
      → Bytes
      → Result AdmittedExecution (ExecutionError I)
  unfolding inherit request_environment
  admit_directory system policy request program working_directory = do
    refuse_if
        (not (system.is_dir working_directory)
          || not (any (system.path_starts_with working_directory) policy.allowed_roots))
        (working_directory_denied working_directory)
    environment ←
        request_environment policy request.environment
          (inherit system policy.denied_environment policy.inherited_environment [])
    ok (admitted_with policy request program working_directory environment)

  -- `admit` once it has the canonical program.
  unfoldable pub admit_program :
      System I
      → ExecutionPolicy
      → ExecutionRequest
      → Bytes
      → Result AdmittedExecution (ExecutionError I)
  unfolding admit_directory
  admit_program system policy request program = do
    refuse_if
        (set_contains policy.denied_programs program
          || not (set_contains policy.allowed_programs program))
        (program_denied program)
    working_directory ← map_err working_directory_io (system.canonicalize request.working_directory)
    admit_directory system policy request program working_directory

  -- `ExecutionPolicy::admit`
  unfoldable pub admit :
      System I → ExecutionPolicy → ExecutionRequest → Result AdmittedExecution (ExecutionError I)
  unfolding admit_program
  admit system policy request =
      map_err program_io (system.canonicalize request.program)
      >>= admit_program system policy request
