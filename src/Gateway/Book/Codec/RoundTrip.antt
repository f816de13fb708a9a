-- ===== src/Gateway/Book/Codec/RoundTrip.antt =====
-- A command book is read back from its snapshot as it was written.
use radio_sensors.Prelude.{
  ℕ, zero, suc, ◌+◌, ◌-◌, ◌*◌, ◌/◌, ◌%◌, ◌^◌, ◌≤◌, ◌<◌, ◌≡◌, refl, sym, ap, ◌∙◌, true, List, [],
  ◌∷◌, ◌++◌, some, arith, length, length-append, take, drop, All, IsU16, IsU32, leb,
}
use radio_sensors.Prelude.Result.{Result, ok, ◌>>=◌, ◌>>◌}
use radio_sensors.Wire.{store, write_u32_le, read_u16_le}
use radio_sensors.Gateway.{CodecError, all_zero}
use radio_sensors.Gateway.Snapshot.{write_u64_le, read_u64_le, crc32}
use radio_sensors.Gateway.Snapshot.RoundTrip.{
  sealed, validate_header-sealed, append_assoc, passes, take-append_all, drop-append_all,
}
use radio_sensors.Gateway.Book.{CommandRecord, CommandBook}
use radio_sensors.Gateway.Book.Validate.{validate_command_book}
use radio_sensors.Gateway.Book.Codec.{
  commands_magic, commands_snapshot_size, record_bytes, record_of, records_bytes, read_records,
  zero_bytes, book_payload, book_bytes, encode_command_book, decode_command_book,
}

-- The widths of a record's fields that take more than a byte.
pub record IsStored (r : CommandRecord) : Type 0 where
  pub id_u16 : IsU16 r.command_id
  pub queued_u64 : r.queued_at < 2 ^ 64
  pub completed_u64 : r.completed_at < 2 ^ 64

read_u64_le-write_u64_le :
    (value : ℕ) (rest : List ℕ)
    → value < 2 ^ 64
    → read_u64_le (write_u64_le value ++ rest) 0 ≡ value
read_u64_le-write_u64_le value rest h = omega arith

record_of-record_bytes :
    (r : CommandRecord) (rest : List ℕ) → IsStored r → record_of (record_bytes r ++ rest) ≡ r
record_of-record_bytes r rest w = ground (
  arith,
  read_u64_le-write_u64_le r.queued_at [] w.queued_u64,
  read_u64_le-write_u64_le r.completed_at [] w.completed_u64,
)

read_records-records_bytes :
    (rs : List CommandRecord) (rest : List ℕ)
    → All IsStored rs
    → read_records (length rs) (records_bytes rs ++ rest) ≡ rs
unfolding read_records records_bytes
read_records-records_bytes [] rest w = refl
read_records-records_bytes (r ∷ rs) rest w =
    ap (λ x. x ∷ read_records (length rs) (records_bytes rs ++ rest))
      (record_of-record_bytes r (records_bytes rs ++ rest) w.0)
    ∙ ap (λ l. r ∷ l) (read_records-records_bytes rs rest w.1)

length-records_bytes : (rs : List CommandRecord) → length (records_bytes rs) ≡ length rs * 50
unfolding records_bytes
length-records_bytes [] = refl
length-records_bytes (r ∷ rs) = omega (arith, length-records_bytes rs)

length-zero_bytes : (n : ℕ) → length (zero_bytes n) ≡ n
unfolding zero_bytes
length-zero_bytes zero = refl
length-zero_bytes (suc n) = omega (arith, length-zero_bytes n)

all_zero-zero_bytes : (n : ℕ) → all_zero (zero_bytes n) ≡ true
unfolding zero_bytes
all_zero-zero_bytes zero = refl
all_zero-zero_bytes (suc n) = ground (arith, all_zero-zero_bytes n)

module _ (book : CommandBook) (generation : ℕ) (buffer : List ℕ) where
  abbrev records_part : List ℕ
  records_part = records_bytes book.records

  abbrev zeros_part : List ℕ
  zeros_part = zero_bytes ((16 - length book.records) * 50)

  -- What stands behind the records and the zeros.
  abbrev behind : List ℕ
  behind =
      write_u32_le (crc32 (book_bytes book generation))
      ++ drop (length (sealed (book_bytes book generation))) buffer

  abbrev written : List ℕ
  written = store (sealed (book_bytes book generation)) buffer

  payload_size : length book.records ≤ 16 → 820 ≡ length (book_payload book) + 16
  payload_size l = omega (
    arith,
    length-append records_part zeros_part,
    length-records_bytes book.records,
    length-zero_bytes ((16 - length book.records) * 50),
  )

  records_stand : drop 16 written ≡ records_part ++ (zeros_part ++ behind)
  records_stand =
      append_assoc (records_part ++ zeros_part) (write_u32_le (crc32 (book_bytes book generation)))
        (drop (length (sealed (book_bytes book generation))) buffer)
      ∙ append_assoc records_part zeros_part behind

  records_read :
      All IsStored book.records
      → read_records (length book.records) (drop 16 written) ≡ book.records
  records_read w =
      ap (read_records (length book.records)) records_stand
      ∙ read_records-records_bytes book.records (zeros_part ++ behind) w

  zeros_read :
      take ((16 - length book.records) * 50) (drop (length book.records * 50) (drop 16 written))
      ≡ zeros_part
  zeros_read =
      ap (λ (n : ℕ). take ((16 - length book.records) * 50) (drop n (drop 16 written)))
        (sym (length-records_bytes book.records))
      ∙ ap (λ l. take ((16 - length book.records) * 50) (drop (length records_part) l))
          records_stand
      ∙ ap (take ((16 - length book.records) * 50))
          (drop-append_all records_part (zeros_part ++ behind))
      ∙ ap (λ (n : ℕ). take n (zeros_part ++ behind))
          (sym (length-zero_bytes ((16 - length book.records) * 50)))
      ∙ take-append_all zeros_part behind

  count_le : validate_command_book book ≡ ok tt → length book.records ≤ 16
  unfolding validate_command_book
  count_le h = ground (arith, h)

  -- What decoding does behind the header, in terms of the records and of the ID that it reads.
  abbrev rebuilt : List CommandRecord → ℕ → Result CodecError (CommandBook × ℕ)
  rebuilt records id =
      let book' : CommandBook = record { next_command_id = id; records = records } in
      validate_command_book book' >> ok (book', generation)

  decode-sealed_book :
      validate_command_book book ≡ ok tt
      → All IsStored book.records
      → IsU16 book.next_command_id
      → IsU32 generation
      → decode_command_book (some written) commands_snapshot_size ≡ ok (book, generation)
  unfolding decode_command_book
  decode-sealed_book h w u g =
      rw
        (validate_header-sealed commands_magic generation 820 (book_payload book) buffer
          (payload_size (count_le h)) (omega arith) g)
        (passes CodecError.invalid_reserved_data true _ refl
          ∙ passes _ _ _ (leb_of_le (length book.records) 16 (count_le h))
          ∙ passes _ _ _
              (ap all_zero zeros_read ∙ all_zero-zero_bytes ((16 - length book.records) * 50))
          ∙ ap (λ l. rebuilt l (read_u16_le written 14)) (records_read w)
          ∙ ap (rebuilt book.records) (u16_read book.next_command_id u)
          ∙ rw h refl)
    where
      leb_of_le : (a b : ℕ) → a ≤ b → leb a b ≡ true
      leb_of_le a b k = ground (arith, k)

      u16_read : (n : ℕ) → IsU16 n → n % 256 + n / 2 ^ 8 % 256 * 2 ^ 8 ≡ n
      u16_read n k = omega arith

-- Into any buffer of the snapshot's size or more, a book that passes the validation, with words in
-- range, is encoded, and what stands there is decoded to it, with the generation.
pub decode-encode_command_book :
    (book : CommandBook) (generation : ℕ) (buffer : List ℕ) (capacity : ℕ)
    → validate_command_book book ≡ ok tt
    → All IsStored book.records
    → IsU16 book.next_command_id
    → IsU32 generation
    → commands_snapshot_size ≤ capacity
    → (encode_command_book book generation (some buffer) capacity >>= λ written.
        decode_command_book (some written) commands_snapshot_size)
      ≡ ok (book, generation)
unfolding encode_command_book
decode-encode_command_book book generation buffer capacity h w u g l =
    ground (arith, h, decode-sealed_book book generation buffer h w u g)
