-- ===== src/Rag/Chunker.antt =====
-- src/rag/chunker.rs: the division of a text into chunks. Positions count characters, where the
-- source has their byte offsets; a chunk has its offsets in bytes. Sums of positions are below
-- twice the length of a text in memory, so they do not wrap.
pub mod Windows
use flash_store.Prelude.{
  ℕ, zero, suc, ◌+◌, ◌-◌, min, max, Bool, true, false, ◌||◌, ◌&&◌, not, List, [], ◌∷◌, ◌++◌, Option,
  none, some, length, get_elem?, drop, ltb, leb, ◌==◌, if◌then◌else◌,
}
use flash_store.Rag.Text.{Text, byte_len, byte_index, slice, is_whitespace, trim}

-- `(start, end, text)`
abbrev pub Chunk : Type 0
Chunk = ℕ × ℕ × Text

pub data ChunkingStrategy : Type 0 where
  fixed_chars : ℕ → ℕ → ChunkingStrategy
  fixed_tokens : ℕ → ℕ → ChunkingStrategy
  paragraph sentence : ChunkingStrategy

pub record ChunkingConfig : Type 0 where
  pub strategy : ChunkingStrategy
  pub min_chunk_size : ℕ

abbrev pub is_none_yet : {A : Type 0} → List A → Bool
is_none_yet chunks = length chunks == 0

abbrev pub effective_overlap : ℕ → ℕ → ℕ
effective_overlap size overlap = min overlap (size - 1)

abbrev pub window_step : ℕ → ℕ → ℕ
window_step size overlap = max (size - effective_overlap size overlap) 1

-- The body of both window loops: the chunk from `i` to `j` joins, if it is long enough, or if it
-- is the last one and no other is there.
unfoldable pub push_window : Text → ℕ → Bool → ℕ → ℕ → List Chunk → List Chunk
push_window text min_chunk_size at_end i j chunks =
    let piece = slice text i j in
    if leb min_chunk_size (byte_len (trim piece)) || (is_none_yet chunks && at_end)
    then chunks ++ (byte_index text i, byte_index text j, piece) ∷ []
    else chunks

-- The loop over windows of characters, with fuel.
unfoldable pub fixed_chars_loop : ℕ → Text → ℕ → ℕ → ℕ → ℕ → List Chunk → List Chunk
fixed_chars_loop zero text size step min_chunk_size c_start chunks = chunks
fixed_chars_loop (suc fuel) text size step min_chunk_size c_start chunks =
    let total_chars = length text in
    let c_end = min (c_start + size) total_chars in
    let pushed = push_window text min_chunk_size (leb total_chars c_end) c_start c_end chunks in
    let rest = fixed_chars_loop fuel text size step min_chunk_size (c_start + step) pushed in
    if ltb c_start total_chars then (if leb total_chars c_end then pushed else rest) else chunks

unfoldable pub chunk_fixed_chars : Text → ℕ → ℕ → ℕ → List Chunk
chunk_fixed_chars text size overlap min_chunk_size =
    if size == 0
    then []
    else fixed_chars_loop (length text) text size (window_step size overlap) min_chunk_size 0 []

-- The spans of the words, from position `i` on, where a word has begun at `start_idx` or not.
unfoldable pub token_spans : Option ℕ → ℕ → Text → List (ℕ × ℕ)
token_spans none i [] = []
token_spans (some s) i [] = (s, i) ∷ []
token_spans none i (c ∷ cs) =
    let here = token_spans none (i + 1) cs in
    let begun = token_spans (some i) (i + 1) cs in if is_whitespace c then here else begun
token_spans (some s) i (c ∷ cs) =
    let ended = token_spans none (i + 1) cs in
    let goes_on = token_spans (some s) (i + 1) cs in
    if is_whitespace c then (s, i) ∷ ended else goes_on

abbrev pub start_of : Option (ℕ × ℕ) → ℕ
start_of none = 0
start_of (some (s, e)) = s

abbrev pub end_of : Option (ℕ × ℕ) → ℕ
end_of none = 0
end_of (some (s, e)) = e

-- The loop over windows of words, with fuel.
unfoldable pub fixed_tokens_loop : ℕ → Text → List (ℕ × ℕ) → ℕ → ℕ → ℕ → ℕ → List Chunk → List Chunk
fixed_tokens_loop zero text spans size step min_chunk_size t_start chunks = chunks
fixed_tokens_loop (suc fuel) text spans size step min_chunk_size t_start chunks =
    let t_end = min (t_start + size) (length spans) in
    let i = start_of (get_elem? spans t_start) in
    let j = end_of (get_elem? spans (t_end - 1)) in
    let pushed = push_window text min_chunk_size (leb (length spans) t_end) i j chunks in
    let rest = fixed_tokens_loop fuel text spans size step min_chunk_size (t_start + step) pushed in
    if ltb t_start (length spans)
    then (if leb (length spans) t_end then pushed else rest)
    else chunks

unfoldable pub chunk_fixed_tokens : Text → ℕ → ℕ → ℕ → List Chunk
chunk_fixed_tokens text size overlap min_chunk_size =
    let spans = token_spans none 0 text in
    if size == 0
    then []
    else fixed_tokens_loop (length spans) text spans size (window_step size overlap) min_chunk_size
        0 []

-- A paragraph from `s` to `i` joins the chunks, if it is long enough.
unfoldable pub push_paragraph : Text → ℕ → Bool → ℕ → ℕ → List Chunk → List Chunk
push_paragraph text min_chunk_size needed s i chunks =
    let trimmed = trim (slice text s i) in
    if leb min_chunk_size (byte_len trimmed) || needed
    then chunks ++ (byte_index text s, byte_index text i, trimmed) ∷ []
    else chunks

-- The loop over the characters, and the paragraph that the end of the text ends.
unfoldable pub paragraphs_loop : Text → ℕ → ℕ → Text → Option ℕ → ℕ → List Chunk → List Chunk
paragraphs_loop text min_chunk_size i [] none newlines chunks = chunks
paragraphs_loop text min_chunk_size i [] (some s) newlines chunks =
    push_paragraph text min_chunk_size (is_none_yet chunks) s i chunks
paragraphs_loop text min_chunk_size i (c ∷ cs) none newlines chunks =
    let line = paragraphs_loop text min_chunk_size (i + 1) cs none (newlines + 1) chunks in
    let blank = paragraphs_loop text min_chunk_size (i + 1) cs none 0 chunks in
    let begun = paragraphs_loop text min_chunk_size (i + 1) cs (some i) 0 chunks in
    if c == 10 then line else if is_whitespace c then blank else begun
paragraphs_loop text min_chunk_size i (c ∷ cs) (some s) newlines chunks =
    let pushed = push_paragraph text min_chunk_size false s i chunks in
    let ended = paragraphs_loop text min_chunk_size (i + 1) cs none (newlines + 1) pushed in
    let line = paragraphs_loop text min_chunk_size (i + 1) cs (some s) (newlines + 1) chunks in
    let goes_on = paragraphs_loop text min_chunk_size (i + 1) cs (some s) 0 chunks in
    if c == 10 then (if leb 2 (newlines + 1) then ended else line) else goes_on

unfoldable pub chunk_paragraphs : Text → ℕ → List Chunk
chunk_paragraphs text min_chunk_size = paragraphs_loop text min_chunk_size 0 text none 0 []

-- Whether what follows a punctuation mark ends the sentence.
abbrev pub ends_after : Text → Bool
ends_after [] = true
ends_after (c ∷ cs) = is_whitespace c || (c == 34) || (c == 39)

abbrev pub is_sentence_end : ℕ → Text → Bool
is_sentence_end c cs = if (c == 46) || (c == 33) || (c == 63) then ends_after cs else c == 10

-- A trailing fragment joins the last chunk.
abbrev pub merge_last : Text → Text → List Chunk → List Chunk
merge_last text fragment [] = []
merge_last text fragment ((s, e, t) ∷ []) = (s, byte_len text, t ++ 32 ∷ fragment) ∷ []
merge_last text fragment (c ∷ d ∷ chunks) = c ∷ merge_last text fragment (d ∷ chunks)

-- What is left after the last sentence.
unfoldable pub push_rest : Text → ℕ → ℕ → List Chunk → List Chunk
push_rest text min_chunk_size start chunks =
    let trimmed = trim (drop start text) in
    if leb (length text) start || (length trimmed == 0)
    then chunks
    else if is_none_yet chunks || leb min_chunk_size (byte_len trimmed)
    then chunks ++ (byte_index text start, byte_len text, trimmed) ∷ []
    else merge_last text trimmed chunks

unfoldable pub sentences_loop : Text → ℕ → ℕ → Text → ℕ → List Chunk → List Chunk
sentences_loop text min_chunk_size i [] start chunks = push_rest text min_chunk_size start chunks
sentences_loop text min_chunk_size i (c ∷ cs) start chunks =
    let trimmed = trim (slice text start (i + 1)) in
    let pushed = chunks ++ (byte_index text start, byte_index text (i + 1), trimmed) ∷ [] in
    let ended = sentences_loop text min_chunk_size (i + 1) cs (i + 1) pushed in
    let goes_on = sentences_loop text min_chunk_size (i + 1) cs start chunks in
    if is_sentence_end c cs && leb min_chunk_size (byte_len trimmed) then ended else goes_on

unfoldable pub chunk_sentences : Text → ℕ → List Chunk
chunk_sentences text min_chunk_size = sentences_loop text min_chunk_size 0 text 0 []

abbrev pub chunk_by : ChunkingStrategy → Text → ℕ → List Chunk
chunk_by (fixed_chars size overlap) text min_chunk_size =
    chunk_fixed_chars text size overlap min_chunk_size
chunk_by (fixed_tokens size overlap) text min_chunk_size =
    chunk_fixed_tokens text size overlap min_chunk_size
chunk_by paragraph text min_chunk_size = chunk_paragraphs text min_chunk_size
chunk_by sentence text min_chunk_size = chunk_sentences text min_chunk_size

unfoldable pub chunk_text : Text → ChunkingConfig → List Chunk
chunk_text text config =
    if length (trim text) == 0 then [] else chunk_by config.strategy text config.min_chunk_size
