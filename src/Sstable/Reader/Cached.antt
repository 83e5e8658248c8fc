-- ===== src/Sstable/Reader/Cached.antt =====
-- Reads through a block cache.
use flash_store.Prelude.{
  ℕ, ◌≡◌, inl, inr, refl, ap, ap₂, sym, ◌∙◌, zero, suc, ◌+◌, length, List, ◌++◌, Option, none, some,
  Bool-cases, leb, ◌==◌,
}
use flash_store.Bytes.{Bytes}
use flash_store.Error.{Result, ok, err, ◌>>=◌}
use flash_store.External.{Buf, Bincode, Crc32}
use flash_store.Sstable.Block
use flash_store.Sstable.Block.{Block}
use flash_store.Sstable.Bloom.{may_contain}
use flash_store.Sstable.Reader.{
  TableReader, BlockCache, block_bytes, read_block, fill, read_cached, get, answer_in, block_idx,
  binary_search, and_block, read_from, read_all_entries, block_entries,
}
use flash_store.Types.{Key, Entry}

-- The entries that a block adds.
abbrev pub from_block :
    ⦃buf : Buf⦄ → ⦃codec : Bincode Entry⦄ → Result Block → Result (List Entry) → Result (List Entry)
from_block (err e) rest = err e
from_block (ok b) rest = rest >>= (λ es. ok (block_entries b (length b.offsets) 0 ++ es))

module _ {C : Type 0} ⦃cache : BlockCache C⦄ where
  -- What the cache holds under a file and a block index is what `bytes_of` says that the block is.
  abbrev pub Coherent : (ℕ → ℕ → Result Bytes) → Option C → Type 0
  Coherent bytes_of none = Unit
  Coherent bytes_of (some c) =
      (n i : ℕ) (w : Bytes) → cache.holds c (n, i) ≡ some w → bytes_of n i ≡ ok w

  pub and_block-from_block :
      ⦃buf : Buf⦄ ⦃codec : Bincode Entry⦄ (b : Result Block) (c : Option C)
      (p : Result (List Entry) × Option C)
      → (and_block b c p).0 ≡ from_block b p.0
  and_block-from_block (err e) c p = refl
  and_block-from_block (ok b) c (rest, c') = refl

  and_block-Coherent :
      ⦃buf : Buf⦄ ⦃codec : Bincode Entry⦄ (bytes_of : ℕ → ℕ → Result Bytes) (b : Result Block)
      (c : Option C) (p : Result (List Entry) × Option C)
      → Coherent bytes_of c
      → Coherent bytes_of p.1
      → Coherent bytes_of (and_block b c p).1
  and_block-Coherent bytes_of (err e) c p h k = h
  and_block-Coherent bytes_of (ok b) c (rest, c') h k = k

  module _ ⦃buf : Buf⦄ ⦃codec : Bincode Entry⦄ (bytes_of : ℕ → ℕ → Result Bytes) (r : TableReader)
      (same : (i : ℕ) → block_bytes r i ≡ bytes_of r.file_number i) where
    fill-Coherent :
        (c : C) (i : ℕ) (b : Result Bytes)
        → b ≡ block_bytes r i
        → Coherent bytes_of (some c)
        → ((fill c (r.file_number, i) b).0 ≡ (b >>= Block.decode))
          × Coherent bytes_of (some (fill c (r.file_number, i) b).1)
    fill-Coherent c i (err e) h coh = (refl, coh)
    fill-Coherent c i (ok b) h coh = (
      refl,
      λ n j w held. elim (cache.holds-insert c (r.file_number, i) b (n, j) w held) [
        | inl (at, is) ↦ ap (λ p. bytes_of p.0 p.1) at ∙ sym (same i) ∙ sym h ∙ ap ok (sym is)
        | inr before ↦ coh n j w before
      ],
    )

    read_cached-Coherent :
        (c : C) (i : ℕ) (o : Option Bytes) (c' : C)
        → o ≡ cache.holds c (r.file_number, i)
        → Coherent bytes_of (some c)
        → Coherent bytes_of (some c')
        → ((read_cached r i (o, c')).0 ≡ (block_bytes r i >>= Block.decode))
          × Coherent bytes_of (some (read_cached r i (o, c')).1)
    read_cached-Coherent c i none c' h coh coh' = fill-Coherent c' i (block_bytes r i) refl coh'
    read_cached-Coherent c i (some w) c' h coh coh' =
        (sym (ap (λ b. b >>= Block.decode) (same i ∙ coh r.file_number i w (sym h))), coh')

    pub read_block-Coherent :
        (i : ℕ) (c : Option C)
        → Coherent bytes_of c
        → ((read_block r i c).0 ≡ (block_bytes r i >>= Block.decode))
          × Coherent bytes_of (read_block r i c).1
    unfolding read_block
    read_block-Coherent i none coh = (refl, tt)
    read_block-Coherent i (some c) coh =
        let k : ℕ × ℕ = (r.file_number, i) in
        read_cached-Coherent c i (cache.get c k).0 (cache.get c k).1 (cache.get-holds c k) coh
          (λ n j w held. coh n j w (cache.holds-get c k (n, j) w held))

    -- A lookup through a cache that holds nothing but blocks of the files gives what a lookup
    -- without a cache gives, and leaves a cache of that kind.
    pub get-Coherent :
        ⦃crc : Crc32⦄ (key : Key) (c : Option C)
        → Coherent bytes_of c
        → ((get r key c).0 ≡ (get {C = C} r key none).0) × Coherent bytes_of (get r key c).1
    unfolding get
    get-Coherent key c coh =
        let i = block_idx (binary_search r.first_keys key) in
        let (block, after) = read_block-Coherent i c coh in
        let (plain, _) = read_block-Coherent i none tt in
        elim (Bool-cases (length r.block_offsets == 0)) [
          | inl e ↦ rw e (refl, coh)
          | inr n ↦ elim (Bool-cases (may_contain r.bloom_filter key)) [
            | inr e ↦ rw n (rw e (refl, coh))
            | inl m ↦ elim (Bool-cases (leb (length r.block_offsets) i)) [
              | inl e ↦ rw n (rw m (rw e (refl, coh)))
              | inr l ↦ rw n (rw m (rw l (ap (answer_in key) (block ∙ sym plain), after)))
            ]
          ]
        ]

    read_from-Coherent :
        (n i : ℕ) (c : Option C)
        → Coherent bytes_of c
        → ((read_from r n i c).0 ≡ (read_from {C = C} r n i none).0)
          × Coherent bytes_of (read_from r n i c).1
    unfolding read_from
    read_from-Coherent zero i c coh = (refl, coh)
    read_from-Coherent (suc n) i c coh =
        let (block, after) = read_block-Coherent i c coh in
        let (plain, after_plain) = read_block-Coherent i none tt in
        let (rest, kept) = read_from-Coherent n (i + 1) (read_block r i c).1 after in
        let (rest_plain, _) =
          read_from-Coherent n (i + 1) (read_block {C = C} r i none).1 after_plain in
        (
          and_block-from_block (read_block r i c).0 (read_block r i c).1 _
              ∙ ap₂ from_block (block ∙ sym plain) (rest ∙ sym rest_plain)
              ∙ sym (
                  and_block-from_block (read_block {C = C} r i none).0
                    (read_block {C = C} r i none).1 _),
          and_block-Coherent bytes_of (read_block r i c).0 (read_block r i c).1 _ after kept,
        )

    -- So does a scan of all entries.
    pub read_all_entries-Coherent :
        (c : Option C)
        → Coherent bytes_of c
        → ((read_all_entries r c).0 ≡ (read_all_entries {C = C} r none).0)
          × Coherent bytes_of (read_all_entries r c).1
    unfolding read_all_entries
    read_all_entries-Coherent c coh = read_from-Coherent (length r.block_offsets) 0 c coh
