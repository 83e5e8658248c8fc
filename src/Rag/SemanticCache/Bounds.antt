-- ===== src/Rag/SemanticCache/Bounds.antt =====
-- The invariant of the semantic cache of src/rag/cache.rs, and what its operations return.
use flash_store.Prelude.{
  ℕ, zero, suc, ◌+◌, ◌-◌, ◌<◌, ◌≤◌, ◌≡◌, refl, ap, sym, ◌∙◌, subst, Bool, true, false, List, [],
  ◌∷◌, ◌++◌, Option, none, some, length, get_elem?, set, ltb, ltb→lt, leb, ◌⊎◌, if◌then◌else◌, ◌==◌,
  length-append, arith, if_keeps, Bool-cases, inl, inr, In, append_assoc,
}
use flash_store.Compaction.Merge.{In-append}
use flash_store.Error.{ok, err, invalid_argument}
use flash_store.Rag.Text.{Text}
use flash_store.Rag.SemanticCache.{
  Float, SearchResult, SemanticCacheEntry, SemanticCache, retain, last_and_rest, swap_remove, new,
  evict_expired, best_match, missed, hit_at, lookup, least_recent, without_lru, insert, is_live,
  better, similarity, is_skipped, dot_product, l2_norm,
}

length-retain : {A : Type 0} (keep : A → Bool) (xs : List A) → length (retain keep xs) ≤ length xs
length-retain keep [] = omega arith
length-retain keep (x ∷ xs) = ground (arith, length-retain keep xs)

suc_not_zero : (n : ℕ) → (suc n == 0) ≡ false
suc_not_zero n = ground arith

get_elem?-seam :
    {A : Type 0} (xs : List A) (x : A) (ys : List A) → get_elem? (xs ++ x ∷ ys) (length xs) ≡ some x
get_elem?-seam [] x ys = refl
get_elem?-seam (y ∷ xs) x ys = get_elem?-seam xs x ys

length-set : {A : Type 0} (xs : List A) (i : ℕ) (v : A) → length (set xs i v) ≡ length xs
length-set [] i v = refl
length-set (x ∷ xs) zero v = refl
length-set (x ∷ xs) (suc i) v = ap suc (length-set xs i v)

length-last_and_rest :
    {A : Type 0} (x : A) (xs : List A) → length (last_and_rest x xs).1 ≡ length xs
length-last_and_rest x [] = refl
length-last_and_rest x (y ∷ ys) = ap suc (length-last_and_rest y ys)

length-swap_remove :
    {A : Type 0} (i : ℕ) (x : A) (xs : List A) → length (swap_remove i (x ∷ xs)) ≡ length xs
length-swap_remove i x xs = length-set (last_and_rest x xs).1 i _ ∙ length-last_and_rest x xs

module _ {F : Type 0} ⦃float : Float F⦄ where
  -- There is room, and no more entries than that.
  pub record IsBounded (c : SemanticCache F) : Type 0 where
    pub room : 0 < c.capacity
    pub count : length c.entries ≤ c.capacity

  length-without_lru : (es : List (SemanticCacheEntry F)) → length (without_lru es) ≡ length es - 1
  length-without_lru [] = refl
  length-without_lru (e ∷ es) = omega (arith, length-swap_remove (least_recent 0 e 1 es) e es)

  evict_expired-IsBounded :
      (now : ℕ) (c : SemanticCache F) → IsBounded c → IsBounded (evict_expired now c)
  unfolding evict_expired
  evict_expired-IsBounded now c b =
      if_keeps IsBounded (ltb 0 c.ttl_secs) _ c
        (record {
          room = b.room;
          count = omega (arith, b.count, length-retain (is_live now c.ttl_secs) c.entries);
        })
        b

  evict_expired-threshold :
      (now : ℕ) (c : SemanticCache F) → (evict_expired now c).threshold ≡ c.threshold
  unfolding evict_expired
  evict_expired-threshold now c =
      if_keeps (λ d. d.threshold ≡ c.threshold) (ltb 0 c.ttl_secs) _ c refl refl

  missed-IsBounded : (c : SemanticCache F) → IsBounded c → IsBounded (missed c).0
  missed-IsBounded c b = record { room = b.room; count = b.count }

  hit_at-IsBounded :
      (now : ℕ) (c : SemanticCache F) (idx : ℕ) (o : Option (SemanticCacheEntry F))
      → IsBounded c
      → IsBounded (hit_at now c idx o).0
  hit_at-IsBounded now c idx none b = b
  hit_at-IsBounded now c idx (some e) b = record {
    room = b.room;
    count = omega (arith, b.count, length-set c.entries idx _);
  }

  -- The cosine of the angle between two vectors, clamped to its range.
  abbrev pub cosine : List F → List F → F
  cosine a b =
      float.clamp
        (float.div (dot_product a b)
          (float.mul (float.sqrt (dot_product a a)) (float.sqrt (dot_product b b))))
        float.minus_one float.one

  -- A match: an entry of the list whose vector has the length of the query and a norm, and that is
  -- similar enough.
  abbrev pub Matches : List F → F → List (SemanticCacheEntry F) → SemanticCacheEntry F → Type 0
  Matches query threshold entries e =
      In e entries
      × (length e.embedding ≡ length query)
      × (float.is_equal (l2_norm e.embedding) float.zero ≡ false)
      × (float.is_ge (cosine e.embedding query) threshold ≡ true)

  compared_length :
      (query : List F) (e : SemanticCacheEntry F)
      → is_skipped query e ≡ false
      → (length e.embedding ≡ length query)
        × (float.is_equal (l2_norm e.embedding) float.zero ≡ false)
  compared_length query e h = (ground (arith, h), ground (arith, h))

  abbrev BestMatches : List F → F → List (SemanticCacheEntry F) → Option (ℕ × F) → Type 0
  BestMatches query threshold entries none = Unit
  BestMatches query threshold entries (some (idx, sim)) =
      (e : SemanticCacheEntry F) × ((get_elem? entries idx ≡ some e)
        × Matches query threshold entries e)

  better-BestMatches :
      (query : List F) (threshold : F) (entries : List (SemanticCacheEntry F)) (idx : ℕ) (sim : F)
      (best : Option (ℕ × F))
      → BestMatches query threshold entries (some (idx, sim))
      → BestMatches query threshold entries best
      → BestMatches query threshold entries (better idx sim best)
  better-BestMatches query threshold entries idx sim none new old = new
  better-BestMatches query threshold entries idx sim (some (i, s)) new old =
      if_keeps (BestMatches query threshold entries) (float.is_gt sim s) (some (idx, sim))
        (some (i, s)) new old

  best_match-BestMatches :
      (query : List F) (threshold : F) (entries done es : List (SemanticCacheEntry F)) (idx : ℕ)
      (best : Option (ℕ × F))
      → entries ≡ done ++ es
      → idx ≡ length done
      → BestMatches query threshold entries best
      → BestMatches query threshold entries (best_match query (l2_norm query) threshold idx es best)
  unfolding best_match
  best_match-BestMatches query threshold entries done [] idx best e n h = h
  best_match-BestMatches query threshold entries done (x ∷ es) idx best e n h =
      let sim = similarity query (l2_norm query) x in
      let e' : entries ≡ (done ++ x ∷ []) ++ es = e ∙ sym (append_assoc done (x ∷ []) es) in
      let n' : idx + 1 ≡ length (done ++ x ∷ []) = omega (arith, n, length-append done (x ∷ [])) in
      let passed =
        best_match-BestMatches query threshold entries (done ++ x ∷ []) es (idx + 1) best e' n' h in
      elim (Bool-cases (is_skipped query x)) [
        | inl skip ↦ rw skip passed
        | inr compared ↦
            let (same, normed) = compared_length query x compared in
            elim (Bool-cases (float.is_ge sim threshold)) [
              | inr low ↦ rw compared (rw low passed)
              | inl enough ↦
                  let here : get_elem? entries idx ≡ some x =
                    ap (λ l. get_elem? l idx) e
                    ∙ ap (get_elem? (done ++ x ∷ es)) n
                    ∙ get_elem?-seam done x es in
                  let new : BestMatches query threshold entries (some (idx, sim)) = (
                    x,
                    (
                      here,
                      (
                        subst (In x) (sym e) (In-append x done (x ∷ es) (inr (inl refl))),
                        same,
                        normed,
                        enough,
                      ),
                    ),
                  ) in
                  rw compared (
                    rw enough (
                      best_match-BestMatches query threshold entries (done ++ x ∷ []) es (idx + 1)
                        (better idx sim best) e' n'
                        (better-BestMatches query threshold entries idx sim best new h)))
            ]
      ]

  In-retain :
      (keep : SemanticCacheEntry F → Bool) (e : SemanticCacheEntry F)
      (es : List (SemanticCacheEntry F))
      → In e (retain keep es)
      → In e es × (keep e ≡ true)
  In-retain keep e [] i = absurd (elim i [ ])
  In-retain keep e (x ∷ es) i = elim (Bool-cases (keep x)) [
    | inl p ↦ elim (rw p at i) [
      | inl same ↦ (inl same, ap keep same ∙ p)
      | inr later ↦ let (m, k) = In-retain keep e es later in (inr m, k)
    ]
    | inr p ↦ let (m, k) = In-retain keep e es (rw p at i) in (inr m, k)
  ]

  -- Not older than the time to live, if there is one.
  abbrev pub IsYoung : ℕ → ℕ → SemanticCacheEntry F → Type 0
  IsYoung now ttl e = (ttl ≡ 0) ⊎ (now - e.created_at < ttl)

  In-evict_expired :
      (now : ℕ) (c : SemanticCache F) (e : SemanticCacheEntry F)
      → In e (evict_expired now c).entries
      → In e c.entries × IsYoung now c.ttl_secs e
  unfolding evict_expired
  In-evict_expired now c e i = elim (Bool-cases (ltb 0 c.ttl_secs)) [
    | inl p ↦
        let (m, live) = In-retain (is_live now c.ttl_secs) e c.entries (rw p at i) in
        (m, inr (ltb→lt _ _ live))
    | inr p ↦ (rw p at i, inl (ground (arith, p)))
  ]

  -- What a lookup may return.
  abbrev Answered :
      List F → F → List (SemanticCacheEntry F) → Option (List (SearchResult F)) → Type 0
  Answered query threshold entries none = Unit
  Answered query threshold entries (some rs) =
      (e : SemanticCacheEntry F) × (Matches query threshold entries e × (e.results ≡ rs))

  -- The same, of the entries before the expired ones leave.
  abbrev pub AnsweredBy : ℕ → SemanticCache F → List F → Option (List (SearchResult F)) → Type 0
  AnsweredBy now c query none = Unit
  AnsweredBy now c query (some rs) =
      (e : SemanticCacheEntry F) × (Matches query c.threshold c.entries e
        × IsYoung now c.ttl_secs e
        × (e.results ≡ rs))

  Answered-before :
      (now : ℕ) (c : SemanticCache F) (query : List F) (o : Option (List (SearchResult F)))
      → Answered query c.threshold (evict_expired now c).entries o
      → AnsweredBy now c query o
  Answered-before now c query none a = tt
  Answered-before now c query (some rs) (e, ((i, long, normed, near), same)) =
      let (m, young) = In-evict_expired now c e i in (e, ((m, long, normed, near), young, same))

  abbrev Looked :
      List F → SemanticCache F → SemanticCache F × Option (List (SearchResult F)) → Type 0
  Looked query c (d, o) = IsBounded d × Answered query c.threshold c.entries o

  hit-Looked :
      (now : ℕ) (c : SemanticCache F) (query : List F) (o : Option (ℕ × F))
      → IsBounded c
      → BestMatches query c.threshold c.entries o
      → Looked query c (elim o [
        | none ↦ missed c
        | some (idx, sim) ↦ hit_at now c idx (get_elem? c.entries idx)
      ])
  hit-Looked now c query none b m = (missed-IsBounded c b, tt)
  hit-Looked now c query (some (idx, sim)) b (e, (at, matches)) =
      subst (λ o. Looked query c (hit_at now c idx o)) (sym at)
        (hit_at-IsBounded now c idx (some e) b, (e, (matches, refl)))

  -- A lookup in a cache within its bounds keeps them, and returns only the results of an entry of
  -- the cache that is younger than the time to live, if there is one, and whose vector has the
  -- length of the query, a norm other than zero, and a cosine with the query that reaches the
  -- threshold.
  pub lookup-IsBounded :
      (now : ℕ) (c : SemanticCache F) (query : List F)
      → IsBounded c
      → IsBounded (lookup now c query).0 × AnsweredBy now c query (lookup now c query).1
  unfolding lookup
  lookup-IsBounded now cache query b =
      let c = evict_expired now cache in
      let bounded = evict_expired-IsBounded now cache b in
      let found =
        best_match-BestMatches query c.threshold c.entries [] c.entries 0 none refl refl tt in
      let looked =
        if_keeps (Looked query c) (float.is_equal (l2_norm query) float.zero) (missed c) _
          (missed-IsBounded c bounded, tt)
          (hit-Looked now c query (best_match query (l2_norm query) c.threshold 0 c.entries none)
            bounded found) in
      (
        looked.0,
        Answered-before now cache query (lookup now cache query).1 (
            subst (λ t. Answered query t c.entries (lookup now cache query).1)
              (evict_expired-threshold now cache) looked.1),
      )

  -- An insertion of an empty vector is an error; any other one into a cache within its bounds
  -- succeeds, keeps the bounds, and puts the new entry last.
  pub insert-IsBounded :
      (now : ℕ) (c : SemanticCache F) (query : Text) (x : F) (xs : List F)
      (results : List (SearchResult F))
      → IsBounded c
      → (insert now c query [] results ≡ err invalid_argument)
        × ((d : SemanticCache F) × ((insert now c query (x ∷ xs) results ≡ ok d)
              × (IsBounded d
                  × ((kept : List (SemanticCacheEntry F)) × (d.entries
                        ≡ kept
                          ++ record {
                            query = query;
                            embedding = x ∷ xs;
                            results = results;
                            created_at = now;
                            last_accessed = now;
                            hits = 0;
                          }
                            ∷ [])))))
  unfolding insert
  insert-IsBounded now c query x xs results b =
      let kept = if leb c.capacity (length c.entries) then without_lru c.entries else c.entries in
      let small : length kept + 1 ≤ c.capacity =
        ground (arith, b.room, b.count, length-without_lru c.entries) in
      let d : SemanticCache F = record c {
        entries =
            kept
            ++ record {
              query = query;
              embedding = x ∷ xs;
              results = results;
              created_at = now;
              last_accessed = now;
              hits = 0;
            }
              ∷ [];
      } in
      (
        refl,
        (
          d,
          (
            rw (suc_not_zero (length xs)) refl,
            (
              record { room = b.room; count = omega (arith, length-append kept (_ ∷ []), small) },
              (kept, refl),
            ),
          ),
        ),
      )
