-- ===== src/Lib.antt =====
-- ZUPT, the archiver under zupt-5.2.10 that the web front end of this repository calls.
--
-- The program packs files into an archive and takes them out again. An archive is a header of 64 bytes,
-- a row of block frames, an index block, a footer of 32 bytes and a trailer of 32 bytes over header and
-- footer. A frame is a preface (magic, type, codec, flags, two sizes as variable-length integers, a
-- checksum) and a payload, which is the bytes of a file compressed by a codec and encrypted where a key
-- is given. Frames that repeat an earlier block are references to it, found through a table of the
-- blocks seen. The parts below meet in these bytes.
--
-- The files, and the code that each models:
--
--   Base       Numbers, lists, machine words, bit operations, and the outcomes of routines on buffers.
--   Failure    zupt_error_t and the results of what may fail (zupt-5.2.10/include/zupt.h).
--   Wire       zupt_le16_put ... zupt_le64_get of zupt-5.2.10/include/zupt.h; zupt_encode_varint,
--              zupt_decode_varint and zupt_read_varint of zupt-5.2.10/src/zupt_format.c. Children:
--              Little (fixed widths), Varint (round trip), Canonical (one encoding a number).
--   Xxh        zupt_xxh64 (zupt-5.2.10/src/zupt_xxh.c).
--   Compare    zupt_ct_memeq of zupt-5.2.10/src/zupt_crypto.c.
--   Sha256     zupt-5.2.10/src/zupt_sha256.c. Children: Streaming (what a context stands for), Digest
--              (buffering and padding), Standard (FIPS 180-4 by itself), Schedule and Conforms (the
--              code against it).
--   Hmac       zupt_hmac_sha256, at once and incremental (zupt-5.2.10/src/zupt_crypto.c). Child:
--              Reference (RFC 2104).
--   Pbkdf2     zupt_pbkdf2_sha256 and zupt_derive_keys (zupt-5.2.10/src/zupt_crypto.c). Child: Blocks
--              (RFC 8018).
--   Aes        zupt-5.2.10/src/zupt_aes256.c, and zupt_aes256_ctr of zupt-5.2.10/src/zupt_crypto.c.
--              Children: Stream (the key stream), Bytes, Counter (the counters of the blocks).
--   Sealing    zupt_encrypt_buffer_aad, zupt_decrypt_buffer_aad and their wrappers
--              (zupt-5.2.10/src/zupt_crypto.c). Children: Authentic (packages with extra data), Legacy
--              (packages without), RoundTrip.
--   Lz         zupt_lz_compress and zupt_lz_decompress with their helpers
--              (zupt-5.2.10/src/zupt_lz.c). Children: Match (the match finder), Lengths, Emit and
--              Decode (a sequence written and read), Step (a round of the compressor), RoundTrip,
--              Safety (any input to the decoder).
--   Predict    zupt_predict_build, zupt_predict_encode and zupt_predict_decode
--              (zupt-5.2.10/src/zupt_predict.c). Children: Inverse, Best.
--   Header     The serializers and deserializers of header and footer, read_header,
--              locate_footer_v15, ait_serialize_mac_input, zupt_format_ait_write and ait_verify of
--              zupt-5.2.10/src/zupt_format.c.
--              Children: Layout (bytes and fields), Locate (opening a file), Trailer (integrity).
--   Block      The fields of a frame, read_block and zupt_serialize_preface_aad of
--              zupt-5.2.10/src/zupt_format.c. Children: Frame (what is written is read), Canonical
--              (what is read was written).
--   AadMap     zupt_legacy_disk_aad_map_build and zupt_legacy_disk_aad_map_lookup of
--              zupt-5.2.10/src/zupt_format.c. Child: Lookup (the binary search).
--   Dedup      zupt-5.2.10/src/zupt_dedup.c: the table, its operations, and references. Children: Probe
--              (a lookup after an insertion), Reach (the states that the operations reach), Reference.
--   Text       zupt_decode_utf8_scalar, zupt_codepoint_is_display_control and
--              zupt_print_terminal_safe_text of zupt-5.2.10/src/zupt_format.c. Child: Safe.
--   PathSafety zupt_path_is_safe, zupt_path_has_unsafe_text, zupt_is_reserved_dos_name and
--              zupt_ascii_equal_ci of zupt-5.2.10/src/zupt_format.c. Children: Contained, Ends.
--   Codec      decompress_block of zupt-5.2.10/src/zupt_format.c. Children: Checked (any block), Restored
--              (blocks of the writer).
--   Destinations
--              zupt_normalize_archive_path and zupt_validate_archive_destinations of
--              zupt-5.2.10/src/zupt_format.c. Children: Distinct (accepted paths).
--   Index      The entries of the index block and parse_index (zupt-5.2.10/src/zupt_format.c). Children:
--              RoundTrip, Accepted (any bytes), Legacy (parse_legacy_disk_index).
--   Filelist   The list of input files (zupt-5.2.10/src/zupt_format.c and
--              zupt-5.2.10/src/zupt_internal.h). Children: Holds.
--
-- How the code is read. A buffer is the list of its bytes and a file the list of its contents; a read
-- position is the list of the bytes ahead. An output buffer with its position is the list of the bytes
-- written so far. A number is a natural number, and every cast, shift and sum that can wrap has its
-- remainder written out. A routine that writes into buffers returns an Outcome: done, fail for its error
-- value, fault for an access outside a buffer, hang where the fuel of a loop ran out.
-- A routine with an error code returns a Result. The struct that a
-- routine changes is its argument and its result. The hash table, the chain and the table of blocks are
-- functions of the index.
--
-- Loops and fuel. The variable-length integers take at most ten rounds, the bound of the source. The
-- main loop of the compressor has src_len + 1 rounds, and each moves ip on; the decoder has src_len
-- rounds, and each takes a token. The loops over text have its length as fuel, and each round moves the
-- cursor. The probes of the table are 64, the bound of the source. The search in the map
-- of offsets has as many passes as the map has entries, and each makes the range shorter. The padding of
-- SHA-256 has 63 passes, and at most 63 zeros are missing; the loops of PBKDF2 and of the counter mode have the
-- length of the output as fuel, and each pass writes a byte or more. All other loops
-- are counted by their own bounds or run down a list.
--
-- Parameters. zupt_lzh_decompress and the decoder of the VaptVupt codec are parameters of
-- decompress_block, and the sort of the C library one of the test of destinations. `malloc` and
-- `allocated` say which requests the allocator grants. The bytes of
-- zupt_random_bytes are the argument `nonce` of the encryption of a buffer. The decryption of a payload
-- is a parameter of the reader of references.
--
-- Not modelled: the bundled VaptVupt codec (vv_*.c, vaptvupt*.h), which is another project's library;
-- zupt_predict_benefit, which computes with floats; the LZH codec, the key files and the key
-- encapsulation, the parallel pipeline, the disk backup, the command line and the SDK. The SHA-NI transform and
-- the assembly behind ZUPT_USE_JASMIN are left out for the C code they stand in for, and the wipes of
-- buffers behind their last use are left out. The Windows branches, the progress
-- output and the directory walks are input and output only. Null checks of pointers that no caller passes as
-- null are left out.
pub mod Base
pub mod Failure
pub mod Wire
pub mod Xxh
pub mod Compare
pub mod Sha256
pub mod Hmac
pub mod Pbkdf2
pub mod Aes
pub mod Sealing
pub mod Lz
pub mod Predict
pub mod Header
pub mod Block
pub mod AadMap
pub mod Dedup
pub mod Text
pub mod PathSafety
pub mod Codec
pub mod Destinations
pub mod Index
pub mod Filelist
