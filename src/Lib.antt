-- ===== src/Lib.antt =====
-- rescriptum answers machines that install themselves: a request's facts select one of the
-- answer documents of a store, group and machine documents are merged, placeholders are filled,
-- and a TFTP and a media server hand out the loaders and images. This library models the parts
-- that decide something, as pure functions and explicit states:
--
--   Normalize, Facts: `normalize` of src/select.rs and src/facts.rs. A request becomes labels and
--     a haystack (Facts/Request), from its path, query (Facts/Query) and JSON body; Facts/Labels is
--     the label map with `add`, `values` and `matches`, Facts/Glob the pattern matcher with its
--     backtracking cursor, Facts/Glob/Wild a recursive definition of the same patterns, and
--     Facts/Labels/Accepts one on patterns and values as they are written.
--   Format: src/format/mod.rs. Kinds and their tables, control data (Format/Control),
--     placeholders (Format/Expand, with a template as a list of pieces in Expand/Pieces), the merge of JSON (Format/Merge) and of text (Format/Lines).
--   Select: src/select.rs with the records of src/store/mod.rs. Select/Build makes a listing from a
--     snapshot, with the walk along `extends` in Build/Chain; Select/Score ranks what claims a request;
--     Select/Resolve is `Answers::resolve`; Select/Cache is `Answers::listing`, with its
--     histories in Cache/Runs, the newest event first. A document is an
--     interface, Select/Docs, so that the selection is the same for every format.
--   Boot/Tftp: src/boot/tftp.rs. Packets, requests, the option negotiation, `wait_for_ack` over a
--     stream of socket events (Tftp/Ack), the block loop of `transfer` (Tftp/Transfer), the admission
--     of `serve` (Tftp/Admission), `resolve` over a file system that canonicalizes (Tftp/Path).
--   Boot/Media, Boot/Cpio: src/boot/media.rs (routes, ranges, the allowlist, segments) and
--     src/boot/cpio.rs.
--   Boot/Iso: src/boot/iso.rs over the bytes of an image. Records and the walk along a path, their
--     names (Iso/Names), the descriptors (Iso/Open).
--   Boot/Patch: src/boot/patch.rs. `read_at` and `materialise` of a plan, the records that are added
--     (Patch/Build) and `add_file` (Patch/Addition), which reads the image through Boot/Iso;
--     Patch/Walk is about the reader's walk over the records that are written.
--   Boot/Sha256: src/boot/sha256.rs. The buffered digest, `compress` on words (Sha256/Compress), and
--     in Sha256/Standard a definition of FIPS 180-4 that uses none of it, whose constants are
--     computed from the roots of the primes.
--   Store: src/store/file.rs. Store/File is one identity's directory, a list of named files and
--     directories: which file answers for a format (`documents_in`, `existing`), `write_atomic` with
--     a value of Fault for what the file system refuses (a failure, with a failure of the clean-up
--     behind it), `remove`. Store/Layout is the answers
--     directory with `put_…` and `delete_…`, and Store/Layout/Put the map that it stands for;
--     Store/Snapshot is `snapshot`, `destination` and `pending_moves`; Store/Service puts the store of
--     files behind the writes of Admin/Write, over a Disk that says what each call is refused.
--   Admin: src/admin.rs. The lockout table (Admin/Guard), the token comparison, JSON strings, and the
--     writes with their rollback over any store (Admin/Write).
--   Installed: src/installed.rs. Envfile: the text side of src/envfile.rs.
--
-- Text is a list of scalar values, bytes are numbers below 256, and the UTF-8 of Prelude/Utf8 stands
-- between them; a panic or a loop without fuel is `none` or a constructor of its own. Machine integers
-- keep their wrap-around and truncation where the source has it. Fuel: the matcher gets,
-- for a text of t and a pattern of p characters, t * (p + 1) + p + 1 rounds, since a backtrack moves
-- on in the text and every other round in the pattern; a transfer one round more than it has full
-- blocks; the walk along `extends` two rounds more than there are groups, since every round but the
-- last sees a new name; the expansion of placeholders one round more than the text has characters,
-- since every round takes some away; the zeros in front of a digest's length 64 rounds, a block;
-- an image that is written out one round more than it has bytes, as every round writes some; the
-- records of a directory and the entries of a system use area one round for each byte.
--
-- Not modelled: sockets, HTTP, tasks and SQL; modes and owners of files, symbolic links, and the
-- directory of an identity that cannot be listed; the TOML, YAML and XML documents, which stand on their libraries;
-- the configuration, the catalogue of images, menus, DHCP snippets, downloads and the command line.
mod Prelude
pub mod Normalize
pub mod Json
pub mod Facts
pub mod Format
pub mod Select
pub mod Boot
pub mod Admin
pub mod Store
pub mod Installed
pub mod Envfile
mod Tests
