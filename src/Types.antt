-- ===== src/Types.antt =====
-- src/types.rs: value types, entries, internal keys and key ranges.
pub mod Order
pub mod Codec
pub mod Range
use Prim.Native.Nat.Ordering.{lt, eq, gt}
use flash_store.Prelude.{
  ℕ, ◌+◌, ◌-◌, ◌%◌, ◌^◌, ◌≡◌, compare, Ordering, Bool, true, false, not, ◌||◌, List, [], ◌∷◌, ◌++◌,
  Option, none, some, length, take, drop, ltb, ◌==◌, if◌then◌else◌,
}
use flash_store.Ordered.{then_with, is_lt}
use flash_store.Bytes.{Bytes, cmp, key_lt, key_le}
use flash_store.External.{Buf, from_be_bytes}
use flash_store.Error.{Result, ok, err, Error, corruption}

abbrev pub Key : Type 0
Key = Bytes

abbrev pub Value : Type 0
Value = Bytes

abbrev pub max_sequence_number : ℕ
max_sequence_number = 2 ^ 64 - 1

pub data ValueType : Type 0 where
  value tombstone : ValueType

abbrev pub is_value : ValueType → Bool
is_value value = true
is_value tombstone = false

abbrev pub is_tombstone : ValueType → Bool
is_tombstone value = false
is_tombstone tombstone = true

abbrev pub as_u8 : ValueType → ℕ
as_u8 value = 0
as_u8 tombstone = 1

unfoldable pub from_u8 : ℕ → Option ValueType
from_u8 val = if val == 0 then some value else if val == 1 then some tombstone else none

-- `TryFrom<u8>`
unfoldable pub try_from_u8 : ℕ → Result ValueType
unfolding from_u8
try_from_u8 val = elim (from_u8 val) [ none ↦ err corruption | some t ↦ ok t ]

pub record Entry : Type 0 where
  pub key : Key
  pub value : Value
  pub value_type : ValueType
  pub seq_no : ℕ

abbrev pub new_value : Key → Value → ℕ → Entry
new_value key v seq_no = record {
  key = key;
  value = v;
  value_type = ValueType.value;
  seq_no = seq_no;
}

abbrev pub new_tombstone : Key → ℕ → Entry
new_tombstone key seq_no = record { key = key; value = []; value_type = tombstone; seq_no = seq_no }

-- The lengths are those of buffers in memory, so the `usize` sum does not wrap.
unfoldable pub estimated_size : Entry → ℕ
estimated_size e = length e.key + length e.value + 8 + 1

-- `Ord for Entry`
unfoldable pub entry_cmp : Entry → Entry → Ordering
entry_cmp a b =
    then_with (then_with (cmp a.key b.key) (compare b.seq_no a.seq_no))
      (compare (as_u8 b.value_type) (as_u8 a.value_type))

pub record InternalKey : Type 0 where
  pub user_key : Key
  pub seq_no : ℕ
  pub value_type : ValueType

abbrev pub to_internal_key : Entry → InternalKey
to_internal_key e = record { user_key = e.key; seq_no = e.seq_no; value_type = e.value_type }

-- `Ord for InternalKey`
unfoldable pub internal_key_cmp : InternalKey → InternalKey → Ordering
internal_key_cmp a b =
    then_with (then_with (cmp a.user_key b.user_key) (compare b.seq_no a.seq_no))
      (compare (as_u8 b.value_type) (as_u8 a.value_type))

abbrev pub encoded_len : InternalKey → ℕ
encoded_len k = length k.user_key + 8 + 1

module _ ⦃buf : Buf⦄ where
  -- `encode_to` appends to a buffer.
  unfoldable pub encode_to : InternalKey → Bytes → Bytes
  encode_to k out = out ++ (k.user_key ++ (buf.put_u64 k.seq_no ++ buf.put_u8 (as_u8 k.value_type)))

  unfoldable pub encode : InternalKey → Bytes
  unfolding encode_to
  encode k = encode_to k []

-- The byte at an index that the length test has put in range.
abbrev pub first : Bytes → ℕ
first [] = 0
first (b ∷ _) = b

unfoldable pub decode : Bytes → Result InternalKey
unfolding try_from_u8
decode d =
    if ltb (length d) 9
    then err corruption
    else let user_key_len = length d - 9 in
      elim (try_from_u8 (first (drop (user_key_len + 8) d))) [
        | ok t ↦ ok (record {
          user_key = take user_key_len d;
          seq_no = from_be_bytes 0 (take 8 (drop user_key_len d));
          value_type = t;
        })
        | err e ↦ err e
      ]

pub record KeyRange : Type 0 where
  pub start : Option Key
  pub end : Option Key

abbrev pub unbounded : KeyRange
unbounded = record { start = none; end = none }

unfoldable pub point : Key → KeyRange
point k = record { start = some k; end = some (k ++ 0 ∷ []) }

-- `start >= end` as the source writes it, on two bounds that may be absent.
abbrev pub bounds_cross : Option Key → Option Key → Bool
bounds_cross none e = false
bounds_cross (some s) none = false
bounds_cross (some s) (some e) = key_le e s

unfoldable pub contains : KeyRange → Key → Bool
contains r key =
    let below : Bool = elim r.start [ none ↦ false | some s ↦ key_lt key s ] in
    let above : Bool = elim r.end [ none ↦ false | some e ↦ key_le e key ] in
    if below then false else if above then false else true

unfoldable pub overlaps : KeyRange → KeyRange → Bool
overlaps r other =
    if bounds_cross r.start other.end
    then false
    else if bounds_cross other.start r.end
    then false
    else true

unfoldable pub is_empty : KeyRange → Bool
is_empty r = bounds_cross r.start r.end
