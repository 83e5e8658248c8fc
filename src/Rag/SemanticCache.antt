-- ===== src/Rag/SemanticCache.antt =====
-- src/rag/cache.rs: the semantic query cache, with the vectors of src/rag/dense.rs that it compares.
-- Arithmetic on `f32` is a parameter, and the clock is an argument.
pub mod Bounds
use flash_store.Prelude.{
  ℕ, zero, suc, ◌+◌, ◌-◌, ◌%◌, ◌^◌, max, Bool, true, false, not, ◌||◌, ◌&&◌, List, [], ◌∷◌, ◌++◌,
  Option, none, some, length, get_elem?, set, ltb, leb, ◌==◌, if◌then◌else◌,
}
use flash_store.Error.{Result, ok, err, invalid_argument}
use flash_store.Rag.Text.{Text}

-- The operations on `f32` that the code uses.
pub record Float (F : Type 0) : Type 0 where
  pub zero : F
  pub one : F
  pub minus_one : F
  pub mul : F → F → F
  pub div : F → F → F
  pub sqrt : F → F
  pub sum : List F → F
  pub clamp : F → F → F → F
  pub is_equal : F → F → Bool
  pub is_ge : F → F → Bool
  pub is_gt : F → F → Bool

module _ {F : Type 0} ⦃float : Float F⦄ where
  abbrev pub products : List F → List F → List F
  products [] b = []
  products (x ∷ a) [] = []
  products (x ∷ a) (y ∷ b) = float.mul x y ∷ products a b

  abbrev pub dot_product : List F → List F → F
  dot_product a b = float.sum (products a b)

  abbrev pub l2_norm : List F → F
  l2_norm a = float.sqrt (dot_product a a)

-- `SearchResult` of src/rag/hybrid.rs
pub record SearchResult (F : Type 0) : Type 0 where
  pub doc_id : Text
  pub score : F
  pub dense_score : Option F
  pub sparse_score : Option F

pub record SemanticCacheEntry (F : Type 0) : Type 0 where
  pub query : Text
  pub embedding : List F
  pub results : List (SearchResult F)
  pub created_at : ℕ
  pub last_accessed : ℕ
  pub hits : ℕ

pub record SemanticCache (F : Type 0) : Type 0 where
  pub capacity : ℕ
  pub threshold : F
  pub ttl_secs : ℕ
  pub entries : List (SemanticCacheEntry F)
  pub total_hits : ℕ
  pub total_misses : ℕ

-- `fetch_add(1)`
abbrev pub counted : ℕ → ℕ
counted n = (n + 1) % 2 ^ 64

abbrev pub text_eq : Text → Text → Bool
text_eq [] [] = true
text_eq [] (y ∷ ys) = false
text_eq (x ∷ xs) [] = false
text_eq (x ∷ xs) (y ∷ ys) = (x == y) && text_eq xs ys

-- `retain`
abbrev pub retain {ℓ} : {A : Type ℓ} → (A → Bool) → List A → List A
retain keep [] = []
retain keep (x ∷ xs) = if keep x then x ∷ retain keep xs else retain keep xs

-- `pop`, as the last element and those before it.
abbrev pub last_and_rest {ℓ} : {A : Type ℓ} → A → List A → A × List A
last_and_rest x [] = (x, [])
last_and_rest x (y ∷ ys) = let (z, zs) = last_and_rest y ys in (z, x ∷ zs)

-- `swap_remove`: the last element takes the place of the removed one.
abbrev pub swap_remove {ℓ} : {A : Type ℓ} → ℕ → List A → List A
swap_remove i [] = []
swap_remove i (x ∷ xs) = let (z, zs) = last_and_rest x xs in set zs i z

module _ {F : Type 0} ⦃float : Float F⦄ where
  unfoldable pub new : ℕ → F → ℕ → SemanticCache F
  new capacity threshold ttl_secs = record {
    capacity = max capacity 1;
    threshold = float.clamp threshold float.zero float.one;
    ttl_secs = ttl_secs;
    entries = [];
    total_hits = 0;
    total_misses = 0;
  }

  abbrev pub is_live : ℕ → ℕ → SemanticCacheEntry F → Bool
  is_live now ttl e = ltb (now - e.created_at) ttl

  unfoldable pub evict_expired : ℕ → SemanticCache F → SemanticCache F
  evict_expired now c =
      if ltb 0 c.ttl_secs
      then record c { entries = retain (is_live now c.ttl_secs) c.entries }
      else c

  abbrev pub similarity : List F → F → SemanticCacheEntry F → F
  similarity query query_norm e =
      float.clamp
        (float.div (dot_product e.embedding query) (float.mul (l2_norm e.embedding) query_norm))
        float.minus_one float.one

  -- Whether the loop passes an entry over.
  abbrev pub is_skipped : List F → SemanticCacheEntry F → Bool
  is_skipped query e =
      not (length e.embedding == length query) || float.is_equal (l2_norm e.embedding) float.zero

  abbrev pub better : ℕ → F → Option (ℕ × F) → Option (ℕ × F)
  better idx sim none = some (idx, sim)
  better idx sim (some (best, best_sim)) =
      if float.is_gt sim best_sim then some (idx, sim) else some (best, best_sim)

  unfoldable pub best_match :
      List F → F → F → ℕ → List (SemanticCacheEntry F) → Option (ℕ × F) → Option (ℕ × F)
  best_match query query_norm threshold idx [] best = best
  best_match query query_norm threshold idx (e ∷ es) best =
      let sim = similarity query query_norm e in
      let passed = best_match query query_norm threshold (idx + 1) es best in
      let taken = best_match query query_norm threshold (idx + 1) es (better idx sim best) in
      if is_skipped query e then passed else if float.is_ge sim threshold then taken else passed

  -- A miss counts.
  abbrev pub missed : SemanticCache F → SemanticCache F × Option (List (SearchResult F))
  missed c = (record c { total_misses = counted c.total_misses }, none)

  -- A hit counts, and marks the entry; the index is one of the entries.
  abbrev pub hit_at :
      ℕ
      → SemanticCache F
      → ℕ
      → Option (SemanticCacheEntry F)
      → SemanticCache F × Option (List (SearchResult F))
  hit_at now c idx none = (c, none)
  hit_at now c idx (some e) = (
    record c {
      total_hits = counted c.total_hits;
      entries = set c.entries idx (record e { last_accessed = now; hits = (e.hits + 1) % 2 ^ 64 });
    },
    some e.results,
  )

  unfoldable pub lookup :
      ℕ → SemanticCache F → List F → SemanticCache F × Option (List (SearchResult F))
  lookup now cache query =
      let c = evict_expired now cache in
      let query_norm = l2_norm query in
      if float.is_equal query_norm float.zero
      then missed c
      else elim (best_match query query_norm c.threshold 0 c.entries none) [
        | none ↦ missed c
        | some (idx, sim) ↦ hit_at now c idx (get_elem? c.entries idx)
      ]

  -- `min_by_key`: of equal ones the first.
  abbrev pub least_recent : ℕ → SemanticCacheEntry F → ℕ → List (SemanticCacheEntry F) → ℕ
  least_recent at e idx [] = at
  least_recent at e idx (x ∷ xs) =
      if ltb x.last_accessed e.last_accessed
      then least_recent idx x (idx + 1) xs
      else least_recent at e (idx + 1) xs

  abbrev pub without_lru : List (SemanticCacheEntry F) → List (SemanticCacheEntry F)
  without_lru [] = []
  without_lru (e ∷ es) = swap_remove (least_recent 0 e 1 es) (e ∷ es)

  unfoldable pub insert :
      ℕ → SemanticCache F → Text → List F → List (SearchResult F) → Result (SemanticCache F)
  insert now c query embedding results =
      let kept = if leb c.capacity (length c.entries) then without_lru c.entries else c.entries in
      if length embedding == 0
      then err invalid_argument
      else ok (record c {
        entries =
            kept
            ++ record {
              query = query;
              embedding = embedding;
              results = results;
              created_at = now;
              last_accessed = now;
              hits = 0;
            }
              ∷ [];
      })

  abbrev pub mentions : Text → List (SearchResult F) → Bool
  mentions doc_id [] = false
  mentions doc_id (r ∷ rs) = text_eq r.doc_id doc_id || mentions doc_id rs

  -- The cache, and the number of entries that went.
  unfoldable pub invalidate_for_doc : SemanticCache F → Text → SemanticCache F × ℕ
  invalidate_for_doc c doc_id =
      let kept = retain (λ e. not (mentions doc_id e.results)) c.entries in
      (record c { entries = kept }, length c.entries - length kept)

  unfoldable pub clear : SemanticCache F → SemanticCache F
  clear c = record c { entries = []; total_hits = 0; total_misses = 0 }
