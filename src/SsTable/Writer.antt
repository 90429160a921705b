-- ===== src/SsTable/Writer.antt =====
-- The loop of `SsTable::create`: what the writer has written, and what is in its buffer.
use lsm_storage_engine.Common.{
  ℕ, ◌+◌, ◌%◌, ◌^◌, ◌≤◌, ◌<◌, ◌≡◌, refl, sym, ap, ◌∙◌, arith, Option, none, List, [], ◌∷◌, ◌++◌,
  length, slice_last, length-append, false, true, append_assoc, append-nil, ltb, ◌==◌, Bool-cases,
  inl, inr,
}
use mathlib.Core.Path.{subst}
use lsm_storage_engine.Common.Bytes.{Bytes}
use lsm_storage_engine.Crc.{u32_le, crc32}
use lsm_storage_engine.MemTable.{Entry}
use lsm_storage_engine.SsTable.Format.{Entries, IndexEntry, encode_entry, flush_data_block}
use lsm_storage_engine.SsTable.Create.{
  Writer, new_writer, unwrap_or_default, flush_block, first_of, write_entry, write_entries,
  last_block, last_key,
}
use lsm_storage_engine.SsTable.Blocks.{encode_entries}
use lsm_storage_engine.SsTable.Iterate.{flat}
use lsm_storage_engine.SsTable.Rows.{RowMatches, RowsMatch}
use lsm_storage_engine.SsTable.Segments.{
  block_bytes, RowAtPlace, Segments, Segments-append, Segments-snoc, room, room-append, room-ge,
}
use lsm_storage_engine.SsTable.Buffer.{
  encode_entries-snoc, length-block_bytes, block_first_of, first_of-snoc, last_key-snoc,
  length-snoc, flat-snoc, RowsMatch-snoc,
}

-- The writer after the entries `done`: the blocks it has written, and the entries in its buffer.
pub record Written (done pending : Entries) (w : Writer) : Type 0 where
  pub blocks : List Entries
  pub whole : flat blocks ++ pending ≡ done
  pub segments : Segments w.file 0 w.index blocks w.offset
  pub end : w.offset ≡ length w.file
  pub rows : RowsMatch w.index blocks
  pub buf : w.block_buf ≡ encode_entries pending
  pub count : w.block_count ≡ length pending
  pub first : w.block_first ≡ block_first_of pending
  pub last : w.block_last ≡ last_key pending
  pub size : length w.file + room pending ≤ room done

pub new_writer-Written : Written [] [] new_writer
unfolding encode_entries
new_writer-Written = record {
  blocks = [];
  whole = refl;
  segments = refl;
  end = refl;
  rows = tt;
  buf = refl;
  count = refl;
  first = refl;
  last = refl;
  size = omega arith;
}

push_entry : Bytes → Entry → Writer → Writer
push_entry key entry w = record w {
  block_buf = w.block_buf ++ encode_entry key entry;
  block_first = first_of w.block_first key;
  block_last = key;
  block_count = w.block_count + 1;
}

push_entry-Written :
    (done pending : Entries) (key : Bytes) (entry : Entry) (w : Writer)
    → Written done pending w
    → Written (done ++ (key, entry) ∷ []) (pending ++ (key, entry) ∷ []) (push_entry key entry w)
unfolding push_entry
push_entry-Written done pending key entry w v = record {
  blocks = v.blocks;
  whole =
      sym (append_assoc (flat v.blocks) pending ((key, entry) ∷ []))
      ∙ ap (λ l. l ++ (key, entry) ∷ []) v.whole;
  segments = v.segments;
  end = v.end;
  rows = v.rows;
  buf = rw (v.buf, encode_entries-snoc pending key entry) refl;
  count = omega (arith, v.count, length-snoc pending key entry);
  first = rw v.first (first_of-snoc pending key entry);
  last = sym (last_key-snoc pending key entry);
  size = omega (
    arith,
    v.size,
    room-append pending ((key, entry) ∷ []),
    room-append done ((key, entry) ∷ []),
  );
}

-- The row that is pushed is that of the block.
pub flushed-RowAtPlace :
    (file : Bytes) (offset : ℕ) (first last : Bytes) (len : ℕ) (block : Entries)
    → offset ≡ length file
    → len ≡ length (block_bytes block)
    → RowAtPlace
        (file ++ block_bytes block)
        offset
        (record { first_key = first; last_key = last; offset = offset; length = len })
        block
flushed-RowAtPlace file offset first last len block at size = record {
  starts = refl;
  positive = ground (arith, size, length-block_positive);
  inside = omega (arith, size, at, length-append file (block_bytes block));
  bytes = slice_last offset (offset + len) file (block_bytes block) at (omega (arith, size, at));
}
  where
    length-block_positive : 0 < length (block_bytes block)
    length-block_positive =
        unfold flush_data_block in
        omega (
          arith,
          length-append (u32_le (length block) ++ encode_entries block)
              (u32_le (crc32 (u32_le (length block) ++ encode_entries block))),
        )

RowMatches-pending :
    (first : Option Bytes) (last : Bytes) (offset len : ℕ) (pending : Entries)
    → 0 < length pending
    → first ≡ block_first_of pending
    → last ≡ last_key pending
    → RowMatches
        (record {
          first_key = unwrap_or_default first;
          last_key = last;
          offset = offset;
          length = len;
        })
        pending
RowMatches-pending first last offset len [] h f l = absurd (omega arith)
RowMatches-pending first last offset len ((k, e) ∷ pending) h f l = (ap unwrap_or_default f, l)

-- `flush_block` with the bytes of the block.
abbrev pub flushed : Bytes → Writer → Writer
flushed block w =
    let len = length block % 2 ^ 32 in
    record {
      file = w.file ++ block;
      index =
          w.index
          ++ record {
            first_key = unwrap_or_default w.block_first;
            last_key = w.block_last;
            offset = w.offset;
            length = len;
          }
            ∷ [];
      block_buf = [];
      block_first = none;
      block_last = [];
      block_count = 0;
      offset = w.offset + len;
    }

pub flush_block-flushed :
    (w : Writer) (entries : Entries)
    → w.block_buf ≡ encode_entries entries
    → w.block_count ≡ length entries
    → flush_block w ≡ flushed (block_bytes entries) w
unfolding flush_block
flush_block-flushed w entries buf count = ap (λ block. flushed block w) (rw (buf, count) refl)

flushed-Written :
    (done pending : Entries) (w : Writer)
    → Written done pending w
    → 0 < length pending
    → room done < 2 ^ 32
    → Written done [] (flushed (block_bytes pending) w)
flushed-Written done pending w v left small = record {
  blocks = v.blocks ++ pending ∷ [];
  whole = append-nil _ ∙ (flat-snoc v.blocks pending ∙ v.whole);
  segments =
      Segments-snoc (w.file ++ block_bytes pending) 0 w.index v.blocks w.offset _ pending
        (Segments-append w.file (block_bytes pending) 0 w.index v.blocks w.offset v.segments)
        (flushed-RowAtPlace w.file w.offset (unwrap_or_default w.block_first) w.block_last _ pending
          v.end len);
  end = omega (arith, len, v.end, length-append w.file (block_bytes pending));
  rows = RowsMatch-snoc w.index v.blocks _ pending v.rows (
      RowMatches-pending w.block_first w.block_last w.offset (length (block_bytes pending) % 2 ^ 32)
        pending left v.first v.last);
  buf = unfold encode_entries in refl;
  count = refl;
  first = refl;
  last = refl;
  size =
      omega (arith, v.size, length-append w.file (block_bytes pending), length-block_bytes pending);
}
  where
    len : length (block_bytes pending) % 2 ^ 32 ≡ length (block_bytes pending)
    len = omega (arith, v.size, length-block_bytes pending)

flush_block-Written :
    (done pending : Entries) (w : Writer)
    → Written done pending w
    → 0 < length pending
    → room done < 2 ^ 32
    → Written done [] (flush_block w)
flush_block-Written done pending w v left small =
    rw (flush_block-flushed w pending v.buf v.count) (flushed-Written done pending w v left small)

-- One round of the loop keeps the invariant.
write_entry-Written :
    (block_size : ℕ) (done pending : Entries) (key : Bytes) (entry : Entry) (w : Writer)
    → Written done pending w
    → room (done ++ (key, entry) ∷ []) < 2 ^ 32
    → (left : Entries) × Written
        (done ++ (key, entry) ∷ [])
        left
        (write_entry block_size key entry w)
unfolding write_entry push_entry
write_entry-Written block_size done pending key entry w v small =
    let pushed : Written (done ++ (key, entry) ∷ []) (pending ++ (key, entry) ∷ [])
        (push_entry key entry w) =
      push_entry-Written done pending key entry w v in
    elim (Bool-cases (ltb (length (w.block_buf ++ encode_entry key entry)) block_size)) [
      | inl less ↦ (pending ++ (key, entry) ∷ [], rw less pushed)
      | inr full ↦ (
        [],
        rw full (
            flush_block-Written (done ++ (key, entry) ∷ []) (pending ++ (key, entry) ∷ [])
              (push_entry key entry w) pushed (omega (arith, length-snoc pending key entry)) small),
      )
    ]

-- And so does the loop.
pub write_entries-Written :
    (block_size : ℕ) (done pending entries : Entries) (w : Writer)
    → Written done pending w
    → room (done ++ entries) < 2 ^ 32
    → (left : Entries) × Written (done ++ entries) left (write_entries block_size entries w)
unfolding write_entries
write_entries-Written block_size done pending [] w v small = (pending, rw (append-nil done) v)
write_entries-Written block_size done pending ((key, entry) ∷ entries) w v small =
    let (left, v') = write_entry-Written block_size done pending key entry w v (
      omega (
        arith,
        room-append done ((key, entry) ∷ entries),
        room-append done ((key, entry) ∷ []),
        room-ge entries,
      )) in
    let (left', v'') =
      write_entries-Written block_size (done ++ (key, entry) ∷ []) left entries
        (write_entry block_size key entry w) v'
        (subst (λ l. room l < 2 ^ 32) (sym (append_assoc done ((key, entry) ∷ []) entries))
          small) in
    (
      left',
      subst
          (λ l.
            Written l left' (write_entries block_size entries (write_entry block_size key entry w)))
          (append_assoc done ((key, entry) ∷ []) entries) v'',
    )

rows_written :
    (index : List IndexEntry) (blocks : List Entries)
    → RowsMatch index blocks
    → 0 < length (flat blocks)
    → (length index == 0) ≡ false
rows_written [] [] m p = absurd (omega arith)
rows_written [] (b ∷ blocks) m p = absurd m
rows_written (row ∷ index) blocks m p = ground arith

-- After the last block everything that was given is in the file, if anything was.
pub last_block-Written :
    (done pending : Entries) (w : Writer)
    → Written done pending w
    → 0 < length done
    → room done < 2 ^ 32
    → Written done [] (last_block w)
unfolding last_block
last_block-Written done [] w v h small = rw (none_left, written) v
  where
    none_left : ltb 0 w.block_count ≡ false
    none_left = ground (arith, v.count)

    written : (length w.index == 0) ≡ false
    written =
        rows_written w.index v.blocks v.rows
          (omega (arith, ap length v.whole, length-append (flat v.blocks) []))
last_block-Written done (x ∷ pending) w v h small =
    rw left (flush_block-Written done (x ∷ pending) w v (omega arith) small)
  where
    left : ltb 0 w.block_count ≡ true
    left = ground (arith, v.count)
