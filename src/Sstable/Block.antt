-- ===== src/Sstable/Block.antt =====
-- src/sstable/block.rs: a block of entries, with their offsets at its end.
pub mod Codec
pub mod Search
use flash_store.Prelude.{
  ℕ, zero, suc, ◌+◌, ◌-◌, ◌*◌, ◌/◌, ◌%◌, ◌^◌, ◌++◌, List, [], ◌∷◌, Option, none, some, length, take,
  drop, get_elem?, ltb, leb, if◌then◌else◌,
}
use flash_store.Bytes.{Bytes, key_lt, key_eq}
use flash_store.Error.{Result, ok, err, corruption}
use flash_store.External.{Buf, Bincode, from_le_bytes}
use flash_store.Types.{Entry, Key}

pub record Block : Type 0 where
  pub bytes : Bytes
  pub offsets : List ℕ

module _ ⦃buf : Buf⦄ ⦃codec : Bincode Entry⦄ where
  -- The loop of `encode` over the entries.
  unfoldable pub encode_entries : Bytes → List ℕ → List Entry → Bytes × List ℕ
  encode_entries out offsets [] = (out, offsets)
  encode_entries out offsets (e ∷ es) =
      let encoded = codec.serialize e in
      encode_entries (out ++ (buf.put_u32_le (length encoded % 2 ^ 32) ++ encoded))
        (offsets ++ (length out % 2 ^ 32) ∷ []) es

  unfoldable pub put_offsets : List ℕ → Bytes
  put_offsets [] = []
  put_offsets (o ∷ os) = buf.put_u32_le o ++ put_offsets os

  unfoldable pub encode : List Entry → Bytes
  unfolding encode_entries put_offsets
  encode entries =
      let (out, offsets) = encode_entries [] [] entries in
      out ++ (put_offsets offsets ++ buf.put_u32_le (length offsets % 2 ^ 32))

  unfoldable pub get_offsets : ℕ → Bytes → List ℕ
  get_offsets zero d = []
  get_offsets (suc n) d = let (o, rest) = buf.get_u32_le d in o ∷ get_offsets n rest

  unfoldable pub decode : Bytes → Result Block
  unfolding get_offsets
  decode d =
      let len = length d in
      let num_offsets = from_le_bytes (drop (len - 4) d) in
      let total_offsets_bytes = num_offsets * 4 in
      let offsets_start = len - 4 - total_offsets_bytes in
      if ltb len 4
      then err corruption
      else if leb (2 ^ 64) total_offsets_bytes
      then err corruption
      else if ltb len (4 + total_offsets_bytes)
      then err corruption
      else ok (record {
        bytes = take offsets_start d;
        offsets = get_offsets num_offsets (take total_offsets_bytes (drop offsets_start d));
      })

  -- The entry that begins at an offset.
  unfoldable pub entry_at : Bytes → ℕ → Option Entry
  entry_at d start =
      let (len, rest) = buf.get_u32_le (drop start d) in
      if ltb (length d) (start + 4)
      then none
      else if ltb (length rest) len
      then none
      else codec.deserialize (take len rest)

  -- An index past the offsets has no entry.
  abbrev pub entry_via : Bytes → Option ℕ → Option Entry
  entry_via d none = none
  entry_via d (some start) = entry_at d start

  unfoldable pub get_entry : Block → ℕ → Option Entry
  unfolding entry_at
  get_entry b index = entry_via b.bytes (get_elem? b.offsets index)

-- The `while low < high` loop of `get_by_key`, with fuel, over the entries that `get` gives.
unfoldable pub lower_bound : (ℕ → Option Entry) → Key → ℕ → ℕ → ℕ → ℕ
lower_bound get key zero low high = low
lower_bound get key (suc fuel) low high =
    let mid = low + (high - low) / 2 in
    let right = lower_bound get key fuel (mid + 1) high in
    let left = lower_bound get key fuel low mid in
    if ltb low high
    then elim (get mid) [ none ↦ low | some e ↦ if key_lt e.key key then right else left ]
    else low

-- The test behind the loop.
unfoldable pub entry_with_key : (ℕ → Option Entry) → Key → ℕ → ℕ → Option Entry
entry_with_key get key n low =
    if ltb low n
    then elim (get low) [ none ↦ none | some e ↦ if key_eq e.key key then some e else none ]
    else none

module _ ⦃buf : Buf⦄ ⦃codec : Bincode Entry⦄ where
  -- The range halves in each round, so its length bounds the rounds.
  unfoldable pub get_by_key : Block → Key → Option Entry
  unfolding lower_bound entry_with_key
  get_by_key b key =
      let n = length b.offsets in
      entry_with_key (get_entry b) key n (lower_bound (get_entry b) key n 0 n)
