-- ===== src/Tests/Scanning.antt =====
-- Scans, chunks and fetches of a small repository at concrete inputs.
use mathlib.Core.Option.{some-injective}
use token_shrinker.Prelude.{
  sym, All, length, ◌≡◌, ◌⊎◌, refl, Bool, true, false, Option, none, some, List, [], ◌∷◌, ◌++◌, map,
  ◌==◌, Result, ok, err, arith,
}
use token_shrinker.Prelude.Bytes.{IsByte, Bytes, ascii, is_ascii_alphanumeric, to_ascii_lowercase}
use token_shrinker.Prelude.Unicode.{Unicode}
use token_shrinker.Prelude.Integers.{pos}
use token_shrinker.Prelude.Order.{cmp_bytes}
use token_shrinker.Prelude.Sort.{sort_by}
use token_shrinker.Types.Count.{TokenBudget}
use token_shrinker.Prelude.Map.{get, upsert}
use token_shrinker.Context.Relevance.{score}
use token_shrinker.Context.ContentHash.{digest_to_content_hash}
use token_shrinker.Context.SourceId.Laws.{new-IsHandle}
use token_shrinker.Context.SourceId
use token_shrinker.Context.SourceId.{SourceId}
use token_shrinker.Context.Build.{build_context}
use token_shrinker.Context.Candidate.{ContextCandidate, repository_file, is_public}
use token_shrinker.Compress.Lines.{newline, str_lines}
use token_shrinker.Repo.Paths.{decode_relative_path, encode_path}
use token_shrinker.Repo.Redaction.{redact_assignments}
use token_shrinker.Repo.Chunks.{RepositoryQuery, SymbolSpan, symbol_candidate, chunk_candidate}
use token_shrinker.Repo.Chunks.Tiles.{HasRoom, Tiles, chunk_candidate-Tiles}
use token_shrinker.Repo.Load.{
  hash_content, FilePath, Metadata, Cache, Attempt, RepositoryProvider, Libraries,
}
use token_shrinker.Repo.Files.{
  LoadedCandidate, FileAnswers, candidate_from_path, strip_prefix, file_handle,
}
use token_shrinker.Repo.Scan.{Entry, file, failed, scan_cancellable}
use token_shrinker.Repo.Scan.Laws.{AreHonest}
use token_shrinker.Repo.Scan.Limits.{LimitsFit, ResultIsSound, scan_cancellable-IsSound}
use token_shrinker.Repo.Fetch.{fetch, default_query, invalid_encoded_path}
use token_shrinker.Repo.Fetch.Laws.{IsSame, IsSameRange, fetch-symbol_candidate}
use token_shrinker.Repo.Fetch.Confined.{FetchIsSound, fetch-FetchIsSound}
use token_shrinker.Repo.Symbols.{OpenError}
use token_shrinker.Daemon.Terms.{CharTables, query_terms, query_path_hints}
use token_shrinker.Daemon.Baseline.{BaselineContext, build_baseline_context}
use token_shrinker.Daemon.Baseline.Laws.{IsBaseline, build_baseline_context-IsBaseline}

abbrev unicode : Unicode
unicode = record { lossy = λ x. x; to_lowercase = λ x. x; trim = λ x. x; trim_start = λ x. x }

abbrev lib : Libraries
lib = record { unicode = unicode; is_utf8 = λ x. true; sha256 = λ content. content }

abbrev provider : RepositoryProvider
provider = record {
  root = ascii "r" ∷ [];
  max_file_bytes = 100;
  max_files = 10;
  max_total_bytes = 1_000;
  redact = redact_assignments unicode;
}

limits : LimitsFit lib provider
limits = record { bytes = omega arith; files = omega arith }

abbrev text : Bytes
text = ascii "key: 1" ++ (newline ∷ (ascii "token=abc" ++ (newline ∷ ascii "end")))

abbrev meta : Metadata
meta = record { length = 20; modified = some (pos 5) }

abbrev attempt : Attempt
attempt = record {
  before = some meta;
  lookup_locks = true;
  bytes = some text;
  after = some meta;
  final = some meta;
  insert_locks = true;
}

abbrev path : FilePath
path = ascii "r" ∷ ascii "a.txt" ∷ []

abbrev answers : FileAnswers
answers = record { canonical = some path; first = attempt; second = attempt }

abbrev empty_cache : Cache
empty_cache p = none

abbrev query : RepositoryQuery
query = record { terms = ascii "key" ∷ []; path_hints = [] }

abbrev entries : List Entry
entries = failed (ascii "denied") ∷ file path answers ∷ []

-- The file at the path had the text.
abbrev Had : FilePath → Bytes → Type 0
Had p raw = (p ≡ path) × (raw ≡ text)

answers-AreHonest : AreHonest lib provider Had answers
answers-AreHonest = record {
  first = λ p e. record {
    had = λ raw r. (sym (some-injective path p e), sym (some-injective text raw r));
  };
  second = λ p e. record {
    had = λ raw r. (sym (some-injective path p e), sym (some-injective text raw r));
  };
}

scan_cancellable-IsSound_example :
    ResultIsSound lib provider Had query limits
      (scan_cancellable lib provider query empty_cache (map (λ e. (false, e)) entries)).0
      (scan_cancellable lib provider query empty_cache (map (λ e. (false, e)) entries)).1
scan_cancellable-IsSound_example =
    scan_cancellable-IsSound lib provider Had query limits empty_cache
      (map (λ e. (false, e)) entries) (tt, (answers-AreHonest, tt)) (λ p. tt)

abbrev content_of : List ContextCandidate → List Bytes
content_of = map (λ (c : ContextCandidate). c.content)

-- The secret is gone.
scan_redacts :
    content_of
      (scan_cancellable lib provider query empty_cache (map (λ e. (false, e)) entries)).0.candidates
    ≡ (ascii "key: 1" ++ (newline ∷ (ascii "token=[REDACTED]" ++ (newline ∷ ascii "end")))) ∷ []
unfolding scan_cancellable cmp_bytes sort_by redact_assignments
scan_redacts = refl

-- A source of three lines, too long for chunks of eight bytes.
abbrev source : ContextCandidate
source = record {
  source_id = record { value = ascii "repo:a.txt" };
  source_kind = repository_file;
  location = record { uri = ascii "a.txt"; start_line = none; end_line = none };
  content = ascii "one" ++ (newline ∷ (ascii "two" ++ (newline ∷ ascii "three")));
  content_hash = record { value = ascii "h" };
  sensitivity = is_public;
  modified_unix_ms = none;
  relevance = record {
    exact_match = false;
    term_match_count = 0;
    path_match = false;
    diagnostic = false;
    freshness = 0;
  };
}

chunks_of_source :
    content_of (chunk_candidate unicode (hash_content lib) source query 8)
    ≡ (ascii "one" ++ (newline ∷ ascii "two")) ∷ ascii "three" ∷ []
unfolding chunk_candidate
chunks_of_source = refl

source-HasRoom : HasRoom source.source_id.value
unfolding SourceId.new
source-HasRoom = record {
  handle = new-IsHandle source.source_id.value source.source_id refl;
  room = omega arith;
}

chunk_candidate-Tiles_example :
    ((chunk_candidate unicode (hash_content lib) source query 8 ≡ source ∷ [])
      × Tiles unicode (hash_content lib) source 8 0 (str_lines source.content) [])
    ⊎ Tiles unicode
        (hash_content lib)
        source
        8
        0
        (str_lines source.content)
        (chunk_candidate unicode (hash_content lib) source query 8)
unfolding str_lines
chunk_candidate-Tiles_example =
    chunk_candidate-Tiles unicode (hash_content lib) source query 8 source-HasRoom (omega arith)
      (omega arith) (omega arith)

abbrev span : SymbolSpan
span = record { start_line = 1; end_line = 2 }

abbrev source_attempt : Attempt
source_attempt = record attempt { bytes = some source.content }

abbrev source_answers : FileAnswers
source_answers = record answers { first = source_attempt; second = source_attempt }

abbrev same_path : FilePath → Option FilePath
same_path p = some p

yielded : (c : ContextCandidate) × (symbol_candidate (hash_content lib) source span ≡ some c)
unfolding symbol_candidate
yielded = (_, refl)

loaded_again :
    (l : LoadedCandidate) × (after : Cache) × (candidate_from_path lib provider empty_cache path
        source_answers default_query
      ≡ (ok l, after))
    × (l.candidate.content ≡ source.content)
    × (l.candidate.source_id ≡ source.source_id)
    × (l.candidate.location.uri ≡ source.location.uri)
unfolding candidate_from_path redact_assignments SourceId.new
loaded_again = (_, _, refl, refl, refl, refl)

source-IsSame : IsSame lib provider source path empty_cache same_path (λ p. source_answers)
unfolding decode_relative_path encode_path strip_prefix
source-IsSame = record {
  relative = ascii "a.txt" ∷ [];
  decoded = refl;
  found = refl;
  below = refl;
  again = loaded_again.0;
  after = loaded_again.1;
  loads = loaded_again.2;
  content = loaded_again.3;
  handle = loaded_again.4;
  uri = loaded_again.5;
}

source_handle : source.source_id.value ≡ file_handle lib provider source.location.uri
unfolding encode_path
source_handle = refl

fetch-symbol_candidate_example :
    (found : ContextCandidate) × ((fetch lib provider empty_cache same_path
        (λ p. source_answers)
        yielded.0.source_id).0
      ≡ ok found)
    × IsSameRange lib provider found yielded.0
fetch-symbol_candidate_example =
    fetch-symbol_candidate lib provider source yielded.0 span path empty_cache same_path
      (λ p. source_answers) source_handle (omega arith) yielded.1 source-IsSame

fetch-FetchIsSound_example : FetchIsSound lib provider Had (
    fetch lib provider empty_cache same_path (λ p. answers) (record { value = ascii "repo:a.txt" }))
fetch-FetchIsSound_example =
    fetch-FetchIsSound lib provider Had empty_cache same_path (λ p. answers)
      (record { value = ascii "repo:a.txt" }) (λ p. answers-AreHonest) (λ p. tt)

-- A handle that leads out of the repository.
fetch_refuses_parent :
    (fetch lib provider empty_cache same_path
      (λ p. answers)
      (record { value = ascii "repo:%2e%2e/secret" })).0
    ≡ err invalid_encoded_path
unfolding fetch
fetch_refuses_parent = refl

abbrev tables : CharTables
tables = record {
  is_alphanumeric = λ c. is_ascii_alphanumeric c;
  is_whitespace = λ c. c == 32;
  to_lowercase = map to_ascii_lowercase;
  encode = λ x. x;
}

terms_of_query :
    query_terms tables (ascii "What is the Key, the KEY of a.txt") ≡ ascii "key" ∷ ascii "txt" ∷ []
unfolding query_terms cmp_bytes sort_by
terms_of_query = refl

hints_of_query :
    query_path_hints tables (ascii "see (src/Main.rs), http://x and lib.rs.")
    ≡ ascii "lib.rs" ∷ ascii "src/main.rs" ∷ []
unfolding query_path_hints cmp_bytes sort_by
hints_of_query = refl

abbrev digest : Bytes → Bytes
digest bytes = ascii "0123456789abcdef0123456789abcdef"

digest-IsByte : (text : Bytes) → All IsByte (digest text) × (length (digest text) ≡ 32)
digest-IsByte text = (omega arith, refl)

abbrev budget : TokenBudget
budget = record { get = 100 }

abbrev Built : Type 0
Built = Result (Option BaselineContext) OpenError

abbrev is_built : Built → Bool
is_built (err e) = false
is_built (ok none) = false
is_built (ok (some b)) = true

run : Built
unfolding build_baseline_context
run =
    build_baseline_context lib tables digest (ok provider) entries empty_cache (ascii "key") budget

run_builds : is_built run ≡ true
unfolding run cmp_bytes sort_by redact_assignments build_context score get upsert
    digest_to_content_hash
run_builds = refl

build_baseline_context-IsBaseline_example :
    (b : BaselineContext) × (build_baseline_context lib tables digest
        (ok provider)
        entries
        empty_cache
        (ascii "key")
        budget
      ≡ ok (some b))
    × IsBaseline lib provider Had limits budget b
build_baseline_context-IsBaseline_example =
    build_baseline_context-IsBaseline lib provider Had limits digest tables entries empty_cache
      (ascii "key") budget digest-IsByte (record { positive = omega arith; fits = omega arith })
      (tt, (answers-AreHonest, tt)) (λ p. tt)
