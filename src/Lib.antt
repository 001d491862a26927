-- ===== src/Lib.antt =====
-- sudoStream: a verification library for the Go core of the media server.
--
-- The server keeps libraries of media below one root folder. internal/access decides who may
-- touch which path: requests bring media-relative paths, internal/access/path.go makes them
-- canonical and finds the library that owns one, internal/access/service.go checks the grants of a
-- user and administers libraries, their root folders and the grants, and
-- internal/access/postgres keeps all three in tables. internal/transcode serves video as HLS:
-- the segments of a rendition are made by an encoder that a request starts where it is needed,
-- that runs ahead of playback, and that is stopped, let go on or replaced. internal/playback decides
-- whether a device needs that, internal/mediafs resolves the paths of requests below the media root,
-- pages the lists that the API returns and moves files to the folder .trash and back,
-- internal/trash keeps a table of what lies there and purges what has expired, and
-- internal/mediahash identifies a file to the providers of subtitles.
--
-- Files:
-- - Prelude: what all files share of the libraries. Prelude/Tests has comparisons, the conditional
--   and case lemmas, Prelude/Lists lists over native numbers with All and Any, Prelude/Slices
--   take and drop, Prelude/Integers the integers,
--   Prelude/Failing calls that may fail, Prelude/Keep filtered lists.
-- - Text: Go strings as lists of bytes, with the parts of strings, net/url and path/filepath that
--   the program calls on Unix. Text/Decimal has numerals, Text/Paths
--   path.Join and url.PathEscape; Text/Laws what is known of both.
-- - Access/Types, Access/Path, Access/Store, Access/Service: internal/access/types.go, path.go,
--   postgres/store.go with models.go, and service.go. A function keeps its name, in lower case with
--   underscores: CanonicalRelPath is canonical_rel_path. Store works on a record of tables; an
--   operation takes the tables and returns new ones or an error, and a failed transaction returns
--   none. Queries are what their text says of the rows. Store/Roots, Store/UserGrants,
--   Service/Libraries, Service/Prune and Service/UserGrants have the operations on these.
-- - Access/Path/Canonical, Within, Best, Match, Slash: what the operations on paths guarantee.
-- - Access/Store/Exclusive, Subsume, Claim, Listing, AddRoot: roots that do not overlap;
--   Grants: the grants of users; Like: the rows that a prefix pattern selects.
-- - Access/Service/Permissions: who is let through; RootsExclusive, Unchanged, PruneExclusive,
--   Registry: the administrative calls as steps from one registry to another.
-- - Transcode/Segment, Ladder, AudioSelect, Variant, Session, TailBuffer, Resolve: of
--   internal/transcode the names and rungs in playlist_vod.go and probe.go, audio_select.go,
--   variant.go and session.go. A session is a record, the map of maps of sessions a list by key and
--   rendition; the directory, the clock, the exit of the encoder and the delivery of signals are
--   inputs. Their children have the theorems.
-- - Media/Page: internal/mediafs/page.go; Media/Page/Walk what a client collects from its pages.
-- - MediaFs: internal/mediafs, service.go; MediaFs/Os what the program uses of the package os, a disk
--   as entries by path, MediaFs/Trash and MediaFs/Delete trash.go and delete.go. A call takes the
--   disk and returns its result with the disk it leaves. Os/Paths, Views, Directories, RoundTrip and
--   Renames say what the system calls do; Resolve, Links, Trash/RoundTrip, Trash/Percent and
--   Delete/Laws what the program does with them, the other children of Trash the steps to it.
-- - Trash: internal/trash, service.go over the disk and the table of Trash/Store, which is types.go
--   and postgres/store.go; Trash/Purge the settings, the loops and autopurge.go. Trash/Undo, Lost,
--   Purge/Laws and Purge/Expired have the theorems, Trash/Rows what they use of the table.
-- - Auth: of internal/auth the calls of administrators on accounts, and the links that are mailed.
--   Auth/Store is postgres/store.go with the records of service.go and types.go, Auth/Admin admin.go,
--   Auth/Roles roles.go, Auth/Seed SeedAdmin of service.go and Auth/Sessions sessions.go; the children
--   of Admin Count, Kept, Steps, Never and Disabled say what becomes of the
--   administrators. Auth/Tokens is of tokens.go the check of a link, ResetPassword and ConfirmEmail;
--   Once and Revived are about these.
-- - Playback: internal/playback, decide.go and profile.go; Playback/Direct and Playback/Container
--   the decision and the container of a file.
-- - MediaHash: internal/mediahash/moviehash.go on the bytes of a file; MediaHash/Sum what it adds up.
-- - Access/Tests, Transcode/Tests, Media/Tests, MediaFs/Tests with MediaFs/Samples,
--   Trash/Tests, Playback/Tests, MediaHash/Tests, Auth/Tests: runs on small inputs.
--
-- Bounds: an int is a 64-bit one, so an index that is parsed is below 2^63. decimal gives its loop
-- as much fuel as the number plus one, more than its digits; unescaping has the two rounds of the
-- source; allocate_slug tries the 998 numbers from 2 to 999 of the source; the turns of
-- wait_for_segment are a list that ends at the deadline.
--
-- Parameters: the collation of ORDER BY, LIKE (with the laws that PostgreSQL documents, on plain
-- characters), the identifiers that the database draws, the Unicode classes behind slugify, and
-- which folders exist on disk. In MediaFs also where symbolic links lead (resolve-within holds for
-- every answer; the calls on a disk are modelled without links), and in Trash the JSON codec, the texts
-- of times, the library of a path and the drawn identifier.
--
-- What a request meets while it runs is read as often as the code reads it: a turn of the wait has one
-- answer on the encoder for segmentComplete and one for the loop, and so has ResolveSegment before it.
-- A disk tells which of its entries the system refuses to remove, so that os.RemoveAll can fail
-- half-way.
--
-- Not modelled: letters beyond ASCII in strings.ToLower, so that what is said of addresses, language
-- tags and codecs is said of ASCII ones; what gin decodes of a path before resolve sees it; the foreign
-- key of a grant on its user; database errors other than violated constraints, context cancellation in access,
-- logs and metrics; in MediaFs the listing of folders, the detection of types, permission errors other
-- than a disk that is mounted read-only and entries that cannot be removed; the cleaner that Trash calls on permanent deletion; the goroutines that repeat modelled operations on a timer; floating-point
-- segment tables and the playlists; in Auth everything but these calls, and the times and settings
-- of the account that the caller sees; the other packages (see the manifest).
pub mod Prelude
pub mod Text
pub mod Access
pub mod Transcode
pub mod Playback
pub mod Media
pub mod MediaFs
pub mod Trash
pub mod MediaHash
pub mod Auth
