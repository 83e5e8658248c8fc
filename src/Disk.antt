-- ===== src/Disk.antt =====
-- `std::fs::File` as the code uses it: a content, a cursor, and the part that `sync_all` made
-- durable. Operations on files are taken to succeed.
use flash_store.Prelude.{
  ℕ, ◌+◌, ◌-◌, ◌≡◌, refl, [], ◌++◌, length, take, drop, replicate, append-nil, take_all, drop_all,
  arith, length-append,
}
use flash_store.Bytes.{Bytes}

pub record File : Type 0 where
  pub content : Bytes
  pub pos : ℕ
  pub durable : Bytes

-- Opening an existing file, with the cursor at its start.
abbrev pub open_existing : Bytes → File
open_existing d = record { content = d; pos = 0; durable = d }

abbrev pub seek_start : File → File
seek_start f = record f { pos = 0 }

abbrev pub seek_end : File → File
seek_end f = record f { pos = length f.content }

-- A write at the cursor overwrites, and a gap before it reads as zeros.
unfoldable pub write_all : File → Bytes → File
write_all f d = record f {
  content =
      take f.pos f.content
      ++ (replicate (f.pos - length f.content) 0 ++ (d ++ drop (f.pos + length d) f.content));
  pos = f.pos + length d;
}

-- `set_len(0)` keeps the cursor.
abbrev pub truncate : File → File
truncate f = record f { content = [] }

abbrev pub sync_all : File → File
sync_all f = record f { durable = f.content }

-- With the cursor at the end a write appends, and leaves the cursor at the end.
pub write_all_at_end :
    (f : File) (d : Bytes)
    → f.pos ≡ length f.content
    → ((write_all f d).content ≡ f.content ++ d)
      × ((write_all f d).pos ≡ length (write_all f d).content)
unfolding write_all
write_all_at_end f d h =
    let before = take_all f.pos f.content (omega arith) in
    let behind = drop_all (f.pos + length d) f.content (omega arith) in
    let gap : f.pos - length f.content ≡ 0 = omega arith in
    rw (before, behind, gap, append-nil) (refl, omega (arith, length-append f.content d))
