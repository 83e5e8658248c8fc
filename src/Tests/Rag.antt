-- ===== src/Tests/Rag.antt =====
-- The results on src/rag/chunker.rs and src/rag/cache.rs at concrete inputs.
use flash_store.Prelude.{◌≡◌, ◌++◌, ◌+◌, ◌*◌, ℕ, [], ◌∷◌, List, arith, leb, ltb, ◌==◌}
use flash_store.Error.{ok, err, invalid_argument}
use flash_store.Rag.Text.{Text}
use flash_store.Rag.Chunker.{effective_overlap, chunk_fixed_chars}
use flash_store.Rag.Chunker.Windows.{rejoin, rejoin-chunk_fixed_chars}
use flash_store.Rag.SemanticCache.{Float, SemanticCacheEntry, SemanticCache, insert, lookup}
use flash_store.Rag.SemanticCache.Bounds.{IsBounded, AnsweredBy, lookup-IsBounded, insert-IsBounded}

abbrev five_chars : Text
five_chars = 97 ∷ 98 ∷ 99 ∷ 233 ∷ 101 ∷ []

rejoin-chunk_fixed_chars_example :
    rejoin (effective_overlap 2 1) (chunk_fixed_chars five_chars 2 1 0) ≡ five_chars
rejoin-chunk_fixed_chars_example = rejoin-chunk_fixed_chars five_chars 2 1 (omega arith)

abbrev sum_of : List ℕ → ℕ
sum_of [] = 0
sum_of (x ∷ xs) = x + sum_of xs

-- Numbers without fractions, in place of `f32`.
instance abbrev whole : Float ℕ
whole = record {
  zero = 0;
  one = 1;
  minus_one = 0;
  mul = λ a b. a * b;
  div = λ a b. a;
  sqrt = λ a. a;
  sum = sum_of;
  clamp = λ a low high. a;
  is_equal = λ a b. a == b;
  is_ge = λ a b. leb b a;
  is_gt = λ a b. ltb b a;
}

abbrev with_one : SemanticCache ℕ
with_one = record {
  capacity = 1;
  threshold = 1;
  ttl_secs = 10;
  entries =
      record {
        query = 97 ∷ [];
        embedding = 2 ∷ 3 ∷ [];
        results = [];
        created_at = 100;
        last_accessed = 100;
        hits = 0;
      }
      ∷ [];
  total_hits = 0;
  total_misses = 0;
}

with_one-IsBounded : IsBounded with_one
with_one-IsBounded = record { room = omega arith; count = omega arith }

lookup-IsBounded_example :
    IsBounded (lookup 105 with_one (2 ∷ 4 ∷ [])).0
    × AnsweredBy 105 with_one (2 ∷ 4 ∷ []) (lookup 105 with_one (2 ∷ 4 ∷ [])).1
lookup-IsBounded_example = lookup-IsBounded 105 with_one (2 ∷ 4 ∷ []) with_one-IsBounded

insert-IsBounded_example :
    (insert 106 with_one (98 ∷ []) [] [] ≡ err invalid_argument)
    × ((d : SemanticCache ℕ) × ((insert 106 with_one (98 ∷ []) (5 ∷ []) [] ≡ ok d)
          × (IsBounded d
              × ((kept : List (SemanticCacheEntry ℕ)) × (d.entries
                    ≡ kept
                      ++ record {
                        query = 98 ∷ [];
                        embedding = 5 ∷ [];
                        results = [];
                        created_at = 106;
                        last_accessed = 106;
                        hits = 0;
                      }
                        ∷ [])))))
insert-IsBounded_example = insert-IsBounded 106 with_one (98 ∷ []) 5 [] [] with_one-IsBounded
