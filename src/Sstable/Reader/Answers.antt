-- ===== src/Sstable/Reader/Answers.antt =====
-- A table that the builder wrote answers by its entries, as the interface of a table asks.
use flash_store.Prelude.{
  ℕ, zero, suc, ◌+◌, ◌^◌, ◌<◌, ◌≤◌, ◌≡◌, refl, ap, ap₂, sym, ◌∙◌, List, [], ◌∷◌, ◌++◌, Bool, true,
  false, none, some, length, get_elem?, leb, ◌==◌, arith, append_assoc, length-append, All,
  Bool-cases, Option-cases, inl, inr, subst, drop_step, drop, drop_all,
}
use mathlib.Core.Option.{some-injective}
use flash_store.Bytes.{Bytes, key_eq, eq_of_cmp}
use flash_store.Error.{ok, ◌>>=◌}
use flash_store.External.{Buf, Crc32, Bincode, to_le_bytes}
use flash_store.Sstable.Block
use flash_store.Sstable.Block.{Block, get_by_key, get_entry}
use flash_store.Sstable.Block.Codec
use flash_store.Sstable.Block.Codec.{body, get_by_key-encode}
use flash_store.Sstable.Block.Search.{IsSorted, find}
use flash_store.Sstable.Bloom.{may_contain}
use flash_store.Sstable.Builder.{Index}
use flash_store.Sstable.Builder.Layout.{concat, keys_of, heads, starts, encode_blocks, NonEmpty}
use flash_store.Sstable.Reader.{
  TableReader, BlockCache, push, get, read_all_entries, read_block, read_from, block_bytes,
  block_entries, block_idx, binary_search, answer_in,
}
use flash_store.Sstable.Reader.Blocks.{block_bytes-encode}
use flash_store.Sstable.Reader.Cached.{read_block-Coherent, and_block-from_block, from_block}
use flash_store.Sstable.Reader.Locate.{IsSorted-left, IsSorted-right, get_elem?-block_idx}
use flash_store.Sstable.Reader.Opening.{reader_of}
use flash_store.Tables.{answer_of}
use flash_store.Types.{Key, Entry}

-- An entry that is found has its key among the keys.
pub find-key :
    (k : Key) (es : List Entry) (e : Entry)
    → find k es ≡ some e
    → (i : ℕ) × (get_elem? (keys_of es) i ≡ some k)
unfolding find
find-key k [] e h = cc
find-key k (x ∷ es) e h = elim (Bool-cases (key_eq x.key k)) [
  | inl same ↦ (0, ap some (eq_of_cmp x.key k (ground arith)))
  | inr other ↦ let (i, at) = find-key k es e (ground arith) in (suc i, at)
]

pub length-keys_of : (es : List Entry) → length (keys_of es) ≡ length es
length-keys_of [] = refl
length-keys_of (e ∷ es) = ap suc (length-keys_of es)

get_elem?-lt {ℓ} :
    {A : Type ℓ} (xs : List A) (i : ℕ) (x : A) → get_elem? xs i ≡ some x → i < length xs
get_elem?-lt [] i x h = cc
get_elem?-lt (y ∷ xs) zero x h = omega arith
get_elem?-lt (y ∷ xs) (suc i) x h = omega (arith, get_elem?-lt xs i x h)

block-IsSorted :
    (bs : List (List Entry)) (i : ℕ) (b : List Entry)
    → get_elem? bs i ≡ some b
    → IsSorted (concat bs)
    → IsSorted b
block-IsSorted [] i b h s = cc
block-IsSorted (c ∷ bs) zero b h s =
    subst IsSorted (some-injective c b h) (IsSorted-left c (concat bs) s)
block-IsSorted (c ∷ bs) (suc i) b h s = block-IsSorted bs i b h (IsSorted-right c (concat bs) s)

module _ ⦃buf : Buf⦄ ⦃codec : Bincode Entry⦄ where
  body-append : (xs ys : List Entry) → body (xs ++ ys) ≡ body xs ++ body ys
  body-append [] ys = refl
  body-append (x ∷ xs) ys =
      let head = to_le_bytes 4 (length (codec.serialize x)) ++ codec.serialize x in
      ap (λ d. head ++ d) (body-append xs ys) ∙ sym (append_assoc head (body xs) (body ys))

  length-body-append :
      (xs ys : List Entry) → length (body (xs ++ ys)) ≡ length (body xs) + length (body ys)
  length-body-append xs ys = ap length (body-append xs ys) ∙ length-append (body xs) (body ys)

  block-Fits :
      (bs : List (List Entry)) (i : ℕ) (b : List Entry)
      → get_elem? bs i ≡ some b
      → length (body b) ≤ length (body (concat bs))
  block-Fits [] i b h = cc
  block-Fits (c ∷ bs) zero b h =
      rw (← some-injective c b h) (omega (arith, length-body-append c (concat bs)))
  block-Fits (c ∷ bs) (suc i) b h =
      omega (arith, length-body-append c (concat bs), block-Fits bs i b h)

  length-starts : (n : ℕ) (bs : List (List Entry)) → length (starts n bs) ≡ length bs
  length-starts n [] = refl
  length-starts n (b ∷ bs) = ap suc (length-starts (n + length (Block.encode b)) bs)

find_nothing :
    (k : Key) (bs : List (List Entry)) → (length bs == 0) ≡ true → find k (concat bs) ≡ none
unfolding find
find_nothing k [] h = refl
find_nothing k (b ∷ bs) h = absurd (ground (arith, h))

cons_of_length :
    (bs : List (List Entry))
    → (length bs == 0) ≡ false
    → (b : List Entry) × (rest : List (List Entry)) × (bs ≡ b ∷ rest)
cons_of_length [] h = cc
cons_of_length (b ∷ bs) h = (b, bs, refl)

clash : {b : Bool} → b ≡ true → b ≡ false → ⊥
clash p q = ground (arith, p, q)

lt→leb_false : (m n : ℕ) → m < n → leb n m ≡ false
lt→leb_false m n h = ground arith

get_elem?-append {ℓ} :
    {A : Type ℓ} (xs : List A) (y : A) (ys : List A) → get_elem? (xs ++ y ∷ ys) (length xs) ≡ some y
get_elem?-append [] y ys = refl
get_elem?-append (x ∷ xs) y ys = get_elem?-append xs y ys

module _ ⦃buf : Buf⦄ ⦃codec : Bincode Entry⦄ where
  block_entries-drop :
      (block : Block) (es : List Entry) (n i : ℕ)
      → ((j : ℕ) → get_entry block j ≡ get_elem? es j)
      → length es ≡ i + n
      → block_entries block n i ≡ drop i es
  unfolding block_entries
  block_entries-drop block es zero i g h = sym (drop_all i es (omega arith))
  block_entries-drop block es (suc n) i g h =
      let (e, at, rest) = drop_step es i (omega arith) in
      ap₂ push (g i ∙ at) (block_entries-drop block es n (i + 1) g (omega arith)) ∙ sym rest

-- A reader of some blocks, with a filter that passes every key of theirs.
module _ ⦃buf : Buf⦄ ⦃codec : Bincode Entry⦄ ⦃crc : Crc32⦄ ⦃index_codec : Bincode Index⦄
    (bs : List (List Entry)) (number : ℕ) (filter : Bytes)
    (small : length (encode_blocks bs) < 2 ^ 64) (fits : length (body (concat bs)) < 2 ^ 32)
    (sorted : IsSorted (concat bs)) (full : All NonEmpty bs) where
  abbrev pub r : TableReader
  r = reader_of number (encode_blocks bs) filter (heads bs, starts 0 bs)

  read-block :
      (i : ℕ) (b : List Entry) → get_elem? bs i ≡ some b → block_bytes r i ≡ ok (Block.encode b)
  read-block i b at = block_bytes-encode r bs _ i b refl refl refl small at

  module _ (C : Type 0) ⦃cache : BlockCache C⦄ where
    block_read :
        (i : ℕ) (b : List Entry)
        → get_elem? bs i ≡ some b
        → (read_block {C = C} r i none).0 ≡ Block.decode (Block.encode b)
    block_read i b at =
        (read_block-Coherent {C = C} (λ n j. block_bytes r j) r (λ j. refl) i none tt).0
        ∙ ap (λ d. d >>= Block.decode) (read-block i b at)

    answer-find :
        (k : Key) (b : List Entry) (i : ℕ)
        → get_elem? bs i ≡ some b
        → find k (concat bs) ≡ find k b
        → answer_in k (read_block {C = C} r i none).0 ≡ ok (answer_of (find k (concat bs)))
    answer-find k b i at decides =
        let (block, decoded, found) =
          get_by_key-encode b k (omega (arith, block-Fits bs i b at))
            (block-IsSorted bs i b at sorted) in
        ap (answer_in k) (block_read i b at ∙ decoded)
        ∙ ap (λ o. ok (answer_of o)) (found ∙ sym decides)

    not_found :
        (k : Key)
        → ((e : Entry) → find k (concat bs) ≡ some e → may_contain filter k ≡ true)
        → may_contain filter k ≡ false
        → find k (concat bs) ≡ none
    not_found k passes out = elim (Option-cases (find k (concat bs))) [
      | inl absent ↦ absent
      | inr (e, at) ↦ absurd (clash (passes e at) out)
    ]

    pub get-find :
        (k : Key)
        → ((e : Entry) → find k (concat bs) ≡ some e → may_contain filter k ≡ true)
        → (get {C = C} r k none).0 ≡ ok (answer_of (find k (concat bs)))
    unfolding get
    get-find k passes =
        let i = block_idx (binary_search (heads bs) k) in
        elim (Bool-cases (length bs == 0)) [
          | inl e ↦
              rw (length-starts 0 bs)
                (rw e (sym (ap (λ o. ok (answer_of o)) (find_nothing k bs e))))
          | inr some_block ↦
              let (b0, rest, e) = cons_of_length bs some_block in
              let (b, at, decides) = get_elem?-block_idx bs k b0 rest e sorted full in
              elim (Bool-cases (may_contain filter k)) [
                | inr out ↦ rw (length-starts 0 bs) (
                    rw some_block
                      (rw out (sym (ap (λ o. ok (answer_of o)) (not_found k passes out)))))
                | inl passed ↦ rw (length-starts 0 bs) (
                    rw some_block (
                      rw passed (
                        rw (lt→leb_false i (length bs) (get_elem?-lt bs i b at))
                          (answer-find k b i at decides))))
              ]
        ]

    no_cache : (i : ℕ) → (read_block {C = C} r i none).1 ≡ none
    unfolding read_block
    no_cache i = refl

    read_from-concat :
        (before after : List (List Entry))
        → bs ≡ before ++ after
        → (read_from {C = C} r (length after) (length before) none).0 ≡ ok (concat after)
    unfolding read_from
    read_from-concat before [] e = refl
    read_from-concat before (b ∷ after) e =
        let i = length before in
        let at : get_elem? bs i ≡ some b =
          ap (λ l. get_elem? l i) e ∙ get_elem?-append before b after in
        let (block, decoded, len, entries) =
          Codec.decode-encode b (omega (arith, block-Fits bs i b at)) in
        let all : block_entries block (length block.offsets) 0 ≡ b =
          ap (λ n. block_entries block n 0) len
          ∙ block_entries-drop block b (length b) 0 entries (omega arith) in
        let rest =
          read_from-concat (before ++ b ∷ []) after
            (e ∙ sym (append_assoc before (b ∷ []) after)) in
        let moved : i + 1 ≡ length (before ++ b ∷ []) =
          omega (arith, length-append before (b ∷ [])) in
        and_block-from_block (read_block {C = C} r i none).0 (read_block {C = C} r i none).1 _
        ∙ ap₂ from_block (block_read i b at ∙ decoded) (
            ap (λ c. (read_from {C = C} r (length after) (i + 1) c).0) (no_cache i)
            ∙ ap (λ j. (read_from {C = C} r (length after) j none).0) moved
            ∙ rest)
        ∙ ap (λ es. ok (es ++ concat after)) all

    pub read_all-concat : (read_all_entries {C = C} r none).0 ≡ ok (concat bs)
    unfolding read_all_entries
    read_all-concat =
        ap (λ n. (read_from {C = C} r n 0 none).0) (length-starts 0 bs)
        ∙ read_from-concat [] bs refl
