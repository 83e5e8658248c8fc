-- ===== src/Sstable/Block/Codec.antt =====
-- `Block::decode` after `Block::encode`: each entry is found at its index.
use flash_store.Prelude.{
  ℕ, zero, suc, ◌+◌, ◌-◌, ◌*◌, ◌%◌, ◌^◌, ◌<◌, ◌≤◌, ◌≡◌, refl, ap, ap₂, sym, ◌∙◌, ◌++◌, List, [],
  ◌∷◌, length, take, drop, get_elem?, arith, All, append-nil, append_assoc, length-append,
  take_append, drop_append, drop_past, le→ltb,
}
use flash_store.Bytes.{Bytes}
use flash_store.Error.{ok}
use flash_store.External.{Buf, Bincode, to_le_bytes, from_le_bytes, from_le_bytes-to_le_bytes_u32}
use flash_store.Types.{Entry, Key}
use flash_store.Sstable.Block.{
  Block, encode_entries, put_offsets, encode, get_offsets, decode, entry_at, entry_via, get_entry,
  get_by_key,
}
use flash_store.Sstable.Block.Search.{IsSorted, find, search-eq-find}

module _ ⦃buf : Buf⦄ ⦃codec : Bincode Entry⦄ where
  -- The bytes of the entries, each behind its length.
  abbrev pub body : List Entry → Bytes
  body [] = []
  body (e ∷ es) = (to_le_bytes 4 (length (codec.serialize e)) ++ codec.serialize e) ++ body es

  -- The place of each entry, from a first place on.
  abbrev pub places : ℕ → List Entry → List ℕ
  places n [] = []
  places n (e ∷ es) = n ∷ places (n + 4 + length (codec.serialize e)) es

  -- A block is at most 4 GiB.
  abbrev pub Fits : List Entry → Type 0
  Fits es = length (body es) < 2 ^ 32

  encode_entries-layout :
      (out : Bytes) (offsets : List ℕ) (es : List Entry)
      → length out + length (body es) < 2 ^ 32
      → encode_entries out offsets es ≡ (out ++ body es, offsets ++ places (length out) es)
  unfolding encode_entries
  encode_entries-layout out offsets [] h = rw append-nil (rw append-nil refl)
  encode_entries-layout out offsets (e ∷ es) h =
      let p = codec.serialize e in
      let n = length p in
      let head = to_le_bytes 4 n ++ p in
      let size : length (out ++ head) ≡ length out + 4 + n =
        omega (arith, length-append out head) in
      let total : length (body (e ∷ es)) ≡ 4 + n + length (body es) =
        omega (arith, length-append head (body es), length-append p (body es)) in
      let fits : n % 2 ^ 32 ≡ n = omega arith in
      let place : length out % 2 ^ 32 ≡ length out = omega arith in
      rw fits (
        rw place (
          rw (buf.put_u32_le_lem n (omega arith)) (
            encode_entries-layout (out ++ head) (offsets ++ length out ∷ []) es (omega arith)
            ∙ ap₂ (λ a b. (a, b)) (append_assoc out head (body es))
                (append_assoc offsets (length out ∷ []) (places (length (out ++ head)) es)
                  ∙ ap (λ m. offsets ++ (length out ∷ places m es)) size))))

  length-places : (n : ℕ) (es : List Entry) → length (places n es) ≡ length es
  length-places n [] = refl
  length-places n (e ∷ es) = ap suc (length-places (n + 4 + length (codec.serialize e)) es)

  abbrev Words : List ℕ → Bytes
  Words [] = []
  Words (o ∷ os) = to_le_bytes 4 o ++ Words os

  length-Words : (os : List ℕ) → length (Words os) ≡ length os * 4
  length-Words [] = refl
  length-Words (o ∷ os) = omega (arith, length-Words os)

  put_offsets-Words : (os : List ℕ) → All (λ o. o < 2 ^ 32) os → put_offsets os ≡ Words os
  unfolding put_offsets
  put_offsets-Words [] h = refl
  put_offsets-Words (o ∷ os) h = rw (buf.put_u32_le_lem o h.0) (rw (put_offsets-Words os h.1))

  get_offsets-Words :
      (os : List ℕ) → All (λ o. o < 2 ^ 32) os → get_offsets (length os) (Words os) ≡ os
  unfolding get_offsets
  get_offsets-Words [] h = refl
  get_offsets-Words (o ∷ os) h =
      rw (buf.get_u32_le_lem o (Words os) h.0) (ap (◌∷◌ o) (get_offsets-Words os h.1))

  places-lt :
      (n : ℕ) (es : List Entry)
      → n + length (body es) < 2 ^ 32
      → All (λ o. o < 2 ^ 32) (places n es)
  places-lt n [] h = tt
  places-lt n (e ∷ es) h =
      let p = codec.serialize e in
      let total = length-append p (body es) in
      (omega arith, places-lt (n + 4 + length p) es (omega arith))

  -- An entry stands at its place.
  entry_at-places :
      (d : Bytes) (es : List Entry) (i : ℕ)
      → length d + length (body es) < 2 ^ 32
      → entry_via (d ++ body es) (get_elem? (places (length d) es) i) ≡ get_elem? es i
  entry_at-places d [] i h = refl
  entry_at-places d (e ∷ es) zero h =
      let p = codec.serialize e in
      let rest = p ++ body es in
      let total = length-append p (body es) in
      let all = length-append d (to_le_bytes 4 (length p) ++ rest) in
      unfold entry_at in
      rw (drop_append d (to_le_bytes 4 (length p) ++ rest) (length d) refl) (
        rw (buf.get_u32_le_lem (length p) rest (omega arith)) (
          rw
            (le→ltb (length (d ++ (to_le_bytes 4 (length p) ++ rest))) (length d + 4) (omega arith))
            (rw (le→ltb (length rest) (length p) (omega arith))
              (rw (take_append p (body es) (length p) refl) (codec.deserialize-serialize e)))))
  entry_at-places d (e ∷ es) (suc i) h =
      let p = codec.serialize e in
      let head = to_le_bytes 4 (length p) ++ p in
      let size : length (d ++ head) ≡ length d + 4 + length p =
        omega (arith, length-append d head) in
      let total = length-append p (body es) in
      ap (λ m. entry_via (d ++ body (e ∷ es)) (get_elem? (places m es) i)) (sym size)
      ∙ ap (λ x. entry_via x (get_elem? (places (length (d ++ head)) es) i))
          (sym (append_assoc d head (body es)))
      ∙ entry_at-places (d ++ head) es i (omega arith)

  length-body-ge : (es : List Entry) → length es * 4 ≤ length (body es)
  length-body-ge [] = omega arith
  length-body-ge (e ∷ es) =
      omega (arith, length-append (codec.serialize e) (body es), length-body-ge es)

  encode-layout :
      (es : List Entry)
      → Fits es
      → encode es ≡ body es ++ (Words (places 0 es) ++ to_le_bytes 4 (length (places 0 es)))
  unfolding encode
  encode-layout es h =
      let os = places 0 es in
      let few = length-body-ge es in
      let n = length-places 0 es in
      let fits : length os % 2 ^ 32 ≡ length os = omega arith in
      rw (encode_entries-layout [] [] es (omega arith)) (
        rw fits (
          rw (put_offsets-Words os (places-lt 0 es (omega arith)))
            (rw (buf.put_u32_le_lem (length os) (omega arith)))))

  decode_layout :
      (b : Bytes) (os : List ℕ)
      → All (λ o. o < 2 ^ 32) os
      → length os < 2 ^ 32
      → decode (b ++ (Words os ++ to_le_bytes 4 (length os)))
        ≡ ok (record { bytes = b; offsets = os })
  unfolding decode
  decode_layout b os small few =
      let n = length os in
      let w = length-Words os in
      let tail = Words os ++ to_le_bytes 4 n in
      let d = b ++ tail in
      let tail_len : length tail ≡ n * 4 + 4 =
        omega (arith, length-append (Words os) (to_le_bytes 4 n)) in
      let len : length d ≡ length b + (n * 4 + 4) = omega (arith, length-append b tail) in
      let last : drop (length d - 4) d ≡ to_le_bytes 4 n =
        drop_past b tail (length d - 4) (n * 4) (omega arith)
        ∙ drop_append (Words os) (to_le_bytes 4 n) (n * 4) (omega arith) in
      let count : from_le_bytes (drop (length d - 4) d) ≡ n =
        ap from_le_bytes last ∙ from_le_bytes-to_le_bytes_u32 n few in
      let start : length d - 4 - n * 4 ≡ length b = omega arith in
      let words : take (n * 4) (drop (length b) d) ≡ Words os =
        ap (take (n * 4)) (drop_append b tail (length b) refl)
        ∙ take_append (Words os) (to_le_bytes 4 n) (n * 4) (omega arith) in
      rw count (
        rw (le→ltb (length d) 4 (omega arith)) (
          rw (le→ltb (length d) (4 + n * 4) (omega arith)) (
            rw start (
              rw words (
                rw (get_offsets-Words os small)
                  (rw (take_append b tail (length b) refl) (ground arith)))))))

  -- Under 4 GiB, a block of entries decodes to a block with as many entries, and each at its index.
  pub decode-encode :
      (es : List Entry)
      → Fits es
      → (b : Block) × (decode (encode es) ≡ ok b)
        × (length b.offsets ≡ length es)
        × ((i : ℕ) → get_entry b i ≡ get_elem? es i)
  decode-encode es h =
      let os = places 0 es in
      let n = length-places 0 es in
      let small = places-lt 0 es (omega arith) in
      let few = length-body-ge es in
      (
        record { bytes = body es; offsets = os },
        ap decode (encode-layout es h) ∙ decode_layout (body es) os small (omega arith),
        n,
        λ i. unfold get_entry in entry_at-places [] es i (omega arith),
      )

  -- A block of strictly ascending entries whose bodies take less than 4 GiB decodes, and a lookup
  -- in it by binary search finds the entry of the key, and nothing if there is none.
  pub get_by_key-encode :
      (es : List Entry) (k : Key)
      → Fits es
      → IsSorted es
      → (b : Block) × (decode (encode es) ≡ ok b) × (get_by_key b k ≡ find k es)
  get_by_key-encode es k h s =
      let (b, decoded, len, at) = decode-encode es h in
      (b, decoded, unfold get_by_key in (rw len (search-eq-find k es (get_entry b) s at)))
