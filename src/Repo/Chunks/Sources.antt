-- ===== src/Repo/Chunks/Sources.antt =====
-- Every chunk is a range of lines of its source, with another relevance.
use mathlib.Core.Option
use token_shrinker.Prelude.{
  ℕ, zero, suc, ◌+◌, ◌≡◌, refl, true, ◌||◌, Option, none, some, List, [], ◌∷◌, drop, length, All,
  leb, to_u32, Bool-cases, inl, inr,
}
use token_shrinker.Prelude.Bytes.{Bytes, is_empty}
use token_shrinker.Prelude.Unicode.{Unicode}
use token_shrinker.Context.ContentHash.{ContentHash}
use token_shrinker.Context.Candidate.{ContextCandidate}
use token_shrinker.Compress.Lines.{str_lines}
use token_shrinker.Repo.Chunks.{
  RepositoryQuery, SymbolSpan, symbol_candidate, count_lines, rescored, push_option, chunk_loop,
  chunk_candidate,
}

module _ (unicode : Unicode) (hash_content : Bytes → ContentHash) (P : ContextCandidate → Type 0)
    (source : ContextCandidate) (query : RepositoryQuery) (max_chunk_bytes : ℕ) where
  -- What a property of the source's ranges must respect: the relevance does not matter.
  module _
      (ranges : (span : SymbolSpan) (c : ContextCandidate)
        → symbol_candidate hash_content source span ≡ some c
        → P (rescored unicode hash_content query c)) where
    push-All :
        (span : SymbolSpan) (chunks : List ContextCandidate)
        → All P chunks
        → (o : Option ContextCandidate) → symbol_candidate hash_content source span ≡ o
        → All P (
            push_option unicode hash_content
              (Option.map (rescored unicode hash_content query) o)
              chunks)
    push-All span chunks a none e = a
    push-All span chunks a (some c) e = (ranges span c e, a)

    chunk_loop-All :
        (turns start : ℕ) (lines : List Bytes)
        → All P (chunk_loop unicode hash_content source query max_chunk_bytes turns start lines)
    unfolding chunk_loop
    chunk_loop-All zero start lines = tt
    chunk_loop-All (suc turns) start [] = tt
    chunk_loop-All (suc turns) start (line ∷ lines) =
        let count = count_lines max_chunk_bytes true 0 (line ∷ lines) in
        let span : SymbolSpan = record {
          start_line = to_u32 (start + 1);
          end_line = to_u32 (start + count);
        } in
        push-All span
          (chunk_loop unicode hash_content source query max_chunk_bytes turns (start + count)
            (drop count (line ∷ lines)))
          (chunk_loop-All turns (start + count) (drop count (line ∷ lines)))
          (symbol_candidate hash_content source span) refl

    pub chunk_candidate-All :
        P source → All P (chunk_candidate unicode hash_content source query max_chunk_bytes)
    unfolding chunk_candidate
    chunk_candidate-All p =
        let lines = str_lines source.content in
        let chunks =
          chunk_loop unicode hash_content source query max_chunk_bytes (length lines) 0 lines in
        elim (Bool-cases (leb (length source.content) max_chunk_bytes || is_empty chunks)) [
          | inl e ↦ rw e (p, tt)
          | inr e ↦ rw e (chunk_loop-All (length lines) 0 lines)
        ]
