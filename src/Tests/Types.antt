-- ===== src/Tests/Types.antt =====
-- The results on src/types.rs at concrete inputs.
use Prim.Native.Nat.Ordering.{lt}
use flash_store.Prelude.{◌≡◌, refl, [], ◌∷◌, length, arith}
use flash_store.Bytes.{Bytes}
use flash_store.Error.{ok}
use flash_store.Types.{
  Entry, InternalKey, new_value, entry_cmp, internal_key_cmp, to_internal_key, decode, encode,
  encoded_len, tombstone,
}
use flash_store.Types.Order.{entry_cmp_newest_first}
use flash_store.Types.Codec
use flash_store.Tests.Instances.{buf}

abbrev pub key_a : Bytes
key_a = 97 ∷ []

abbrev pub key_b : Bytes
key_b = 98 ∷ []

abbrev newer : Entry
newer = new_value key_a key_b 7

abbrev older : Entry
older = new_value key_a key_a 3

abbrev deleted_key : InternalKey
deleted_key = record { user_key = key_a; seq_no = 7; value_type = tombstone }

entry_cmp_newest_first_example :
    (entry_cmp newer older ≡ lt)
    × (internal_key_cmp (to_internal_key newer) (to_internal_key older) ≡ lt)
entry_cmp_newest_first_example = entry_cmp_newest_first newer older refl (omega arith)

decode-encode_example :
    (decode (encode deleted_key) ≡ ok deleted_key)
    × (length (encode deleted_key) ≡ encoded_len deleted_key)
decode-encode_example = Codec.decode-encode deleted_key (omega arith)
