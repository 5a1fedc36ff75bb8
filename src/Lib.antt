-- ===== src/Lib.antt =====
-- libbson: a verification development for the BSON library of src/bson.
--
-- The library keeps a document as its bytes: a length of four bytes, the elements, a NUL. A program
-- appends elements to a growing buffer (bson.c), reads the bytes of others with an iterator
-- (bson-iter.c), checks and converts their text (bson-utf8.c), and writes documents one behind the
-- other into a buffer (bson-writer.c) and reads them back (bson-reader.c). Object ids (bson-oid.c)
-- are values of their own.
--
-- Base (with Tests, Lists, Words, Bits, Memory, Texts) has the names, the tests and the lemmas that
-- the other files share. The memory that can be read is a list of bytes, and a number of the source
-- is a natural number whose wrap-around is written out.
--
-- Types is `bson_type_t` of src/bson/bson-types.h. Format is the wire format: `Value` is
-- `bson_value_t`, `encode` the data of a value, `element` and `document_bytes` the bytes of an
-- element and of a document. It is the independent description that the appenders and the iterator
-- are compared with.
--
-- Utf8 is src/bson/bson-utf8.c: `validate` is `bson_utf8_validate`, `get_char`, `next_char` and
-- `from_unichar` are the functions of these names. `none` is a read past the end of the string. The
-- loop of `validate` runs on fuel, the length of the string, and each round consumes a byte at
-- least. Its counter is an `unsigned`, so the definition is that of the code for strings below
-- 2 ^ 32 bytes. Utf8/Arith and Utf8/Codec are about the codec, Utf8/Validate and its child about
-- validation.
--
-- Iter and Iter/Next are src/bson/bson-iter.c: the record `Iter` is `bson_iter_t`, the functions
-- `fill_*` are the cases of the `switch` in `_bson_iter_next_internal`, `scan_nul` is its loop that
-- looks for a NUL, with as much fuel as the document has bytes left, `next_internal` is the whole
-- function and `next` is `bson_iter_next`. `none` is a read past the memory. Iter/Fill and
-- Iter/Next/Safe hold the proofs. Iter/Read has the accessors, from `bson_iter_binary` to
-- `bson_iter_key`, and Iter/Read/Value has `bson_iter_value`; the conversion of a double to an
-- integer is a parameter. Iter/Read/Date compares the seconds of a date. Iter/Element and its
-- children prove what is read of an element of the format. Iter/Find has `bson_iter_recurse`, the
-- searches for a key and for a dotted path, and `bson_count_keys` of src/bson/bson.c; the loops run
-- on fuel, the length of the document or of the key, and a step consumes two bytes at least. Its
-- children hold the proofs. Iter/Overwrite has the `bson_iter_overwrite_*` functions. Iter/Visit
-- has `bson_iter_visit_all`: the visitor is a table of functions on a state, and the loop runs on
-- fuel, a round for each element. Their children hold the proofs.
--
-- Run is how code that writes ends: with a value, at a failed BSON_ASSERT, or by an access out of
-- bounds.
--
-- Bson, Bson/Append and Bson/Child are src/bson/bson.c: the record `Bson` is `bson_t` in its two
-- private forms, `grow` is `_bson_grow`, `append` is `_bson_append`, `append_int32` and the others
-- are `bson_append_int32` and so on, `append_bson_begin` and `append_bson_end` are the two
-- functions below `bson_append_document_begin` and `bson_append_document_end`. The buffer that a
-- child shares with its parent is handed from one to the other. The allocator is a parameter, of
-- which it is asked that `malloc` and `realloc` give the size asked for and that `realloc` keeps
-- the bytes; the library ends the program where memory runs out. Bson/Value has `bson_init_static`
-- and `bson_append_value`. `has_first` is the assertions of `_bson_append` on its pairs. Bson/Whole
-- has `bson_compare`, `bson_equal`, `bson_has_field` and `bson_concat`. Bson/Grow, Bson/Content and
-- its child, Bson/Document, Bson/Whole/Concat and the children of Bson/Append hold the proofs.
--
-- Bson/Copy has `bson_append_iter`, and `copy_to_excluding`, which is
-- `bson_copy_to_excluding_noinit` with the names to leave out as a list, which `has_exclude` asks
-- to have a first; its loop runs on fuel, a round for each byte of the source. Bson/Copy/Appended
-- and Bson/Copy/Kept hold the proofs.
--
-- Bson/Validate is the validation in src/bson/bson.c: `validate_funcs` is the table
-- `bson_validate_funcs`, `validate_document` is `_bson_iter_validate_document`, and `bson_validate`
-- and `bson_validate_with_error` are themselves. The state of a visit is a call that may not have
-- come back. The recursion runs on a depth, for which one above the nesting of the documents is
-- enough. Bson/Validate/Spec describes what is accepted, on trees of elements, with the flags, the
-- rules of a DBRef and the equality of texts as its own definitions; Bson/Validate/Rules and Same
-- compare them with those of the code, and the other children hold the proofs.
--
-- Oid is src/bson/bson-oid.c and the inline functions of bson-oid.h, on a little-endian machine:
-- `init_from_string` is `bson_oid_init_from_string`, and so on. Oid/Hex and Oid/Order hold the
-- proofs.
--
-- Writer is src/bson/bson-writer.c: `begin`, `end` and `rollback` are `bson_writer_begin` and so
-- on. The loop of `begin` that doubles the length runs on fuel, 65 turns, which are enough for 2 ^
-- 63 bytes. Writer/Room, Writer/Sequence and Writer/Finish hold the proofs.
--
-- Reader is src/bson/bson-reader.c: `data_read` is `_bson_reader_data_read`, `handle_read` is
-- `_bson_reader_handle_read`, `fill_buffer` is `_bson_reader_handle_fill_buffer`. The read function
-- of the caller is a parameter; the theorems on whole streams ask that it never fails and delivers
-- its bytes in order (Reader/Fill, `Delivers`). The loop of `handle_read` runs on fuel, and takes
-- at most two turns more than there are bytes to deliver. Reader/Data, Reader/Fill, Reader/Round,
-- Reader/Progress, Reader/Start and Reader/Handle hold the proofs.
--
-- Decimal128 is the arithmetic of src/bson/bson-decimal128.c: `divide1b` is
-- `_bson_uint128_divide1B`, `mul_64x64` is `_mul_64x64` and `is_text_equal` is `_dec128_istreq`,
-- with the C library's `isupper` as a parameter. Decimal128/Exact and Decimal128/Names hold the
-- proofs. `bson_decimal128_to_string` and `bson_decimal128_from_string`, which use them, are left
-- out.
--
-- Not modelled: the searches of the iterator that ignore case, the other copies of whole documents,
-- the JSON output of documents, the escape of text for JSON, the generation of object ids and their
-- context, keys, the texts of decimal128, strings and times, which this library does not reach yet;
-- the readers over files and descriptors, JSON and BCON, which are clients of the system, of
-- vendored code or of C varargs; and the wrappers of the platform. Which memory is freed is left
-- out, and so is the warning of `bson_append_array` for a first key other than "0", with the step
-- of an iterator that looks for this key.
--
-- Examples and its children apply the theorems to concrete inputs.
pub mod Base
pub mod Types
pub mod Format
pub mod Utf8
pub mod Iter
pub mod Run
pub mod Bson
pub mod Oid
pub mod Decimal128
pub mod Writer
pub mod Reader
pub mod Examples
