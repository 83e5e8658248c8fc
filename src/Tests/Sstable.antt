-- ===== src/Tests/Sstable.antt =====
-- The results on src/sstable at concrete inputs.
use flash_store.Prelude.{◌*◌, ◌≡◌, ◌==◌, refl, true, [], ◌∷◌, List, length, if◌then◌else◌, arith}
use flash_store.Error.{ok, err, corruption}
use flash_store.Sstable.Footer.{Footer, footer_size, magic_number, footer_decode-encode}
use flash_store.Sstable.Footer
use flash_store.Sstable.Block
use flash_store.Sstable.Block.{Block, get_by_key}
use flash_store.Sstable.Block.Codec.{get_by_key-encode}
use flash_store.Sstable.Block.Search.{IsSorted, find}
use flash_store.Sstable.Bloom.{new, build_from_keys, may_contain}
use flash_store.Sstable.Bloom.Members.{may_contain-build}
use flash_store.Types.{Entry, new_value, new_tombstone}
use flash_store.Tests.Codecs.{entry_codec}
use flash_store.Tests.Instances.{buf, crc}
use flash_store.Tests.Types.{key_a, key_b}

abbrev small_footer : Footer
small_footer = record {
  meta_index_offset = 100;
  meta_index_size = 20;
  index_offset = 120;
  index_size = 30;
  magic = 12;
}

footer_decode-encode_example :
    (length (Footer.encode small_footer) ≡ footer_size)
    × (Footer.decode (Footer.encode small_footer)
        ≡ (if small_footer.magic == magic_number then ok small_footer else err corruption))
footer_decode-encode_example = footer_decode-encode small_footer (record {
  meta_index_offset = omega arith;
  meta_index_size = omega arith;
  index_offset = omega arith;
  index_size = omega arith;
  magic = omega arith;
})

abbrev pub two_entries : List Entry
two_entries = new_value key_a key_b 3 ∷ new_tombstone key_b 5 ∷ []

pub two_entries-IsSorted : IsSorted two_entries
unfolding flash_store.Bytes.cmp
two_entries-IsSorted = ((refl, tt), (tt, tt))

get_by_key-encode_example :
    (b : Block) × (Block.decode (Block.encode two_entries) ≡ ok b)
    × (get_by_key b key_b ≡ find key_b two_entries)
get_by_key-encode_example = get_by_key-encode two_entries key_b (omega arith) two_entries-IsSorted

may_contain-build_example :
    may_contain (build_from_keys (new (λ n. n * 7) 10) (key_a ∷ key_b ∷ [])) key_b ≡ true
may_contain-build_example =
    may_contain-build (λ n. n * 7) 10 (key_a ∷ key_b ∷ []) 1 key_b (omega arith) refl
