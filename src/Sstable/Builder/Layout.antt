-- ===== src/Sstable/Builder/Layout.antt =====
-- What the builder writes: the blocks, the filter, the index and the footer, one behind the other.
use native.Mathlib.Nat.{zero-add}
use flash_store.Prelude.{
  ℕ, ◌+◌, ◌%◌, ◌^◌, ◌≡◌, refl, ap, sym, ◌∙◌, List, [], ◌∷◌, ◌++◌, length, leb, arith, append-nil,
  append_assoc, All, All-append, length-append, if_keeps,
}
use flash_store.Bytes.{Bytes}
use flash_store.Config.{Options}
use flash_store.Disk.{write_all_at_end}
use flash_store.External.{Buf, Bincode}
use flash_store.Sstable.Block
use flash_store.Sstable.Builder.{
  TableBuilder, new, note_first, push_entry, flush_entries, flush_block, add, add_all,
}
use flash_store.Types.{Key, Entry}

abbrev pub concat : List (List Entry) → List Entry
concat [] = []
concat (b ∷ bs) = b ++ concat bs

pub concat-append : (xs ys : List (List Entry)) → concat (xs ++ ys) ≡ concat xs ++ concat ys
concat-append [] ys = refl
concat-append (b ∷ xs) ys =
    ap (λ es. b ++ es) (concat-append xs ys) ∙ sym (append_assoc b (concat xs) (concat ys))

abbrev pub keys_of : List Entry → List Key
keys_of [] = []
keys_of (e ∷ es) = e.key ∷ keys_of es

pub keys_of-append : (xs ys : List Entry) → keys_of (xs ++ ys) ≡ keys_of xs ++ keys_of ys
keys_of-append [] ys = refl
keys_of-append (e ∷ xs) ys = ap (λ ks. e.key ∷ ks) (keys_of-append xs ys)

-- The first keys of the blocks.
abbrev pub head_of : List Entry → List Key
head_of [] = []
head_of (e ∷ es) = e.key ∷ []

abbrev pub heads : List (List Entry) → List Key
heads [] = []
heads (b ∷ bs) = head_of b ++ heads bs

pub heads-append : (xs ys : List (List Entry)) → heads (xs ++ ys) ≡ heads xs ++ heads ys
heads-append [] ys = refl
heads-append (b ∷ xs) ys =
    ap (λ ks. head_of b ++ ks) (heads-append xs ys)
    ∙ sym (append_assoc (head_of b) (heads xs) (heads ys))

abbrev pub NonEmpty : List Entry → Type 0
NonEmpty [] = ⊥
NonEmpty (e ∷ es) = Unit

module _ ⦃buf : Buf⦄ ⦃codec : Bincode Entry⦄ where
  abbrev pub encode_blocks : List (List Entry) → Bytes
  encode_blocks [] = []
  encode_blocks (b ∷ bs) = Block.encode b ++ encode_blocks bs

  pub encode_blocks-append :
      (xs ys : List (List Entry)) → encode_blocks (xs ++ ys) ≡ encode_blocks xs ++ encode_blocks ys
  encode_blocks-append [] ys = refl
  encode_blocks-append (b ∷ xs) ys =
      ap (λ d. Block.encode b ++ d) (encode_blocks-append xs ys)
      ∙ sym (append_assoc (Block.encode b) (encode_blocks xs) (encode_blocks ys))

  -- The places of the blocks, from a first place on.
  abbrev pub starts : ℕ → List (List Entry) → List ℕ
  starts n [] = []
  starts n (b ∷ bs) = n % 2 ^ 64 ∷ starts (n + length (Block.encode b)) bs

  starts-append :
      (n : ℕ) (xs : List (List Entry)) (b : List Entry)
      → starts n (xs ++ b ∷ []) ≡ starts n xs ++ (n + length (encode_blocks xs)) % 2 ^ 64 ∷ []
  starts-append n [] b = ap (λ m. m % 2 ^ 64 ∷ []) (omega arith)
  starts-append n (x ∷ xs) b =
      let m = n + length (Block.encode x) in
      ap (◌∷◌ (n % 2 ^ 64)) (
        starts-append m xs b
        ∙ ap (λ k. starts m xs ++ k % 2 ^ 64 ∷ [])
            (omega (arith, length-append (Block.encode x) (encode_blocks xs))))

  -- A builder that has written `blocks`.
  pub record Holds (options : Options) (b : TableBuilder) (blocks : List (List Entry))
      : Type 0 where
    pub options_kept : b.options ≡ options
    pub content : b.file.content ≡ encode_blocks blocks
    pub at_end : b.file.pos ≡ length b.file.content
    pub offset : b.offset ≡ length (encode_blocks blocks) % 2 ^ 64
    pub offsets : b.block_offsets ≡ starts 0 blocks
    pub firsts : b.first_keys ≡ heads blocks ++ head_of b.current_entries
    pub keys : b.all_keys ≡ keys_of (concat blocks ++ b.current_entries)
    pub full : All NonEmpty blocks

  new-Holds : (options : Options) → Holds options (new options) []
  new-Holds options = record {
    options_kept = refl;
    content = refl;
    at_end = refl;
    offset = refl;
    offsets = refl;
    firsts = refl;
    keys = refl;
    full = tt;
  }

  -- What is written after a flush of the entries of the current block.
  abbrev pub with_block : List (List Entry) → List Entry → List (List Entry)
  with_block blocks [] = blocks
  with_block blocks (e ∷ es) = blocks ++ (e ∷ es) ∷ []

  pub concat-with_block :
      (blocks : List (List Entry)) (es : List Entry)
      → concat (with_block blocks es) ≡ concat blocks ++ es
  concat-with_block blocks [] = sym (append-nil (concat blocks))
  concat-with_block blocks (e ∷ es) =
      concat-append blocks ((e ∷ es) ∷ []) ∙ ap (λ x. concat blocks ++ x) (append-nil (e ∷ es))

  flush_entries-Holds :
      (options : Options) (b : TableBuilder) (blocks : List (List Entry)) (es : List Entry)
      → b.current_entries ≡ es
      → Holds options b blocks
      → Holds options (flush_entries b es) (with_block blocks es)
        × ((flush_entries b es).current_entries ≡ [])
  unfolding flush_entries
  flush_entries-Holds options b blocks [] e h = (h, e)
  flush_entries-Holds options b blocks (x ∷ es) e h =
      let d = Block.encode (x ∷ es) in
      let (written, at) = write_all_at_end b.file d h.at_end in
      let grown : encode_blocks (blocks ++ (x ∷ es) ∷ []) ≡ encode_blocks blocks ++ d =
        encode_blocks-append blocks ((x ∷ es) ∷ [])
        ∙ ap (λ t. encode_blocks blocks ++ t) (append-nil d) in
      (
        record {
          options_kept = h.options_kept;
          content = written ∙ ap (λ c. c ++ d) h.content ∙ sym grown;
          at_end = at;
          offset = rw (grown, h.offset) (omega (arith, length-append (encode_blocks blocks) d));
          offsets =
              rw (h.offsets, h.offset)
                (ap (λ n. starts 0 blocks ++ n % 2 ^ 64 ∷ []) (sym (zero-add _))
                  ∙ sym (starts-append 0 blocks (x ∷ es)));
          firsts =
              h.firsts
              ∙ ap (λ c. heads blocks ++ head_of c) e
              ∙ sym (
                  append-nil (heads (blocks ++ (x ∷ es) ∷ []))
                  ∙ heads-append blocks ((x ∷ es) ∷ []));
          keys =
              h.keys
              ∙ ap (λ c. keys_of (concat blocks ++ c)) e
              ∙ ap keys_of (
                  sym (
                    append-nil (concat (blocks ++ (x ∷ es) ∷ []))
                    ∙ concat-with_block blocks (x ∷ es)));
          full = All-append NonEmpty blocks ((x ∷ es) ∷ []) h.full (tt, tt);
        },
        refl,
      )

  note_first-head :
      (es : List Entry) (fs hs : List Key) (e : Entry)
      → fs ≡ hs ++ head_of es
      → note_first es fs e.key ≡ hs ++ head_of (es ++ e ∷ [])
  note_first-head [] fs hs e h = rw (h, append-nil) refl
  note_first-head (x ∷ es) fs hs e h = h

  push_entry-Holds :
      (options : Options) (b : TableBuilder) (blocks : List (List Entry)) (e : Entry)
      → Holds options b blocks
      → Holds options (push_entry b e) blocks
  push_entry-Holds options b blocks e h = record {
    options_kept = h.options_kept;
    content = h.content;
    at_end = h.at_end;
    offset = h.offset;
    offsets = h.offsets;
    firsts = note_first-head b.current_entries b.first_keys (heads blocks) e h.firsts;
    keys =
        ap (λ ks. ks ++ e.key ∷ []) h.keys
        ∙ sym (keys_of-append (concat blocks ++ b.current_entries) (e ∷ []))
        ∙ ap keys_of (append_assoc (concat blocks) b.current_entries (e ∷ []));
    full = h.full;
  }

  -- A builder that has been given `es`: some are in the blocks, the others in the current block.
  pub record Given (options : Options) (b : TableBuilder) (es : List Entry) : Type 0 where
    pub blocks : List (List Entry)
    pub holds : Holds options b blocks
    pub given : concat blocks ++ b.current_entries ≡ es

  flush_block-Given :
      (options : Options) (b : TableBuilder) (es : List Entry)
      → Given options b es
      → Given options (flush_block b) es × ((flush_block b).current_entries ≡ [])
  flush_block-Given options b es g =
      let (h, none_left) = flush_entries-Holds options b g.blocks b.current_entries refl g.holds in
      (
        record {
          blocks = with_block g.blocks b.current_entries;
          holds = h;
          given =
              ap (λ c. concat (with_block g.blocks b.current_entries) ++ c) none_left
              ∙ append-nil (concat (with_block g.blocks b.current_entries))
              ∙ concat-with_block g.blocks b.current_entries
              ∙ g.given;
        },
        none_left,
      )

  add-Given :
      (options : Options) (b : TableBuilder) (es : List Entry) (e : Entry)
      → Given options b es
      → Given options (add b e) (es ++ e ∷ [])
  unfolding add
  add-Given options b es e g =
      let pushed : Given options (push_entry b e) (es ++ e ∷ []) = record {
        blocks = g.blocks;
        holds = push_entry-Holds options b g.blocks e g.holds;
        given =
            sym (append_assoc (concat g.blocks) b.current_entries (e ∷ []))
            ∙ ap (λ xs. xs ++ e ∷ []) g.given;
      } in
      if_keeps (λ c. Given options c (es ++ e ∷ [])) (leb b.options.block_size _)
        (flush_block (push_entry b e)) (push_entry b e)
        (flush_block-Given options (push_entry b e) (es ++ e ∷ []) pushed).0 pushed

  add_all-Given :
      (options : Options) (b : TableBuilder) (done es : List Entry)
      → Given options b done
      → Given options (add_all b es) (done ++ es)
  unfolding add_all
  add_all-Given options b done [] g = rw append-nil g
  add_all-Given options b done (e ∷ es) g =
      rw (← append_assoc done (e ∷ []) es)
        (add_all-Given options (add b e) (done ++ e ∷ []) es (add-Given options b done e g))

  -- The builder after all entries and the last flush.
  pub flushed-Given :
      (options : Options) (es : List Entry)
      → Given options (flush_block (add_all (new options) es)) es
        × ((flush_block (add_all (new options) es)).current_entries ≡ [])
  flushed-Given options es = flush_block-Given options (add_all (new options) es) es (
      add_all-Given options (new options) [] es
        (record { blocks = []; holds = new-Holds options; given = refl }))
