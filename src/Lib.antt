-- ===== src/Lib.antt =====
-- CypherStorm: protected files as authenticated, encrypted containers (internal/).
--
-- The parts, and the files that model them:
--
-- - Base, Base/Tests, Base/Lists: numbers, lists, byte strings and their tests. Fault: the errors of
--   all packages as one enumeration, and results. A wrapped error is the error of its cause or of
--   its call; the text of a message is not kept.
-- - Stream: io.Reader, io.Writer, context.Context and crypto/rand. A reader is the bytes that it
--   still delivers and the error at their end. The environment (`Env`) decides when the context is
--   cancelled, how many bytes a Write takes and with what error, and what randomness returns; the
--   state (`World`) is the source, the bytes written and the number of draws. Stream/Laws: laws.
-- - Security: internal/security/crypto/suite.go (Suite), internal/storage/compress/compress.go
--   (Codec), internal/security/kdf/kdf.go (Kdf). Primitives: the third-party cryptography, an
--   argument of everything that uses it.
-- - Credential/Identity: internal/credential/identity/identity.go, as far as the container uses it.
--   Credential/Signing: its detached signatures; JSON, base64 and crypto/ed25519 are arguments.
--   Credential/Exchange: Encode and Decode of internal/credential/qrexchange/qr.go.
-- - Credential/Store: internal/credential/credentialstore/store.go. Backend and the encodings are
--   arguments; Atomic, Errors: what an error leaves behind; Effect, Reads: what a success has done.
-- - Container: internal/security/container/container.go. Frame: writeRecord and readRecord. Payload:
--   the loops of Encrypt and Decrypt. Header, HeaderReader: readHeader (Header/Readable: what it
--   accepts). Recipients: wrapRecipients and unwrapRecipients. Envelope: Encrypt, Decrypt, Inspect.
--   Rekey: Rekey. The children of each hold the proofs.
-- - Storage: internal/storage. Names: validateEntryName and isWindowsDrivePath of archive/extract.go.
--   Paths: package path as far as archive/scan.go uses it. Links: validatePortableSymlink. Limits:
--   archive/archive.go. Scan: ScanTar. Selection: selection/selection.go, path.Match an argument.
--   Files: fsutil/fsutil.go and fsutil/directory.go, the calls of package os being arguments that
--   may fail; Files/Laws: what the proofs rely on of them.
-- - App: internal/app. Manifest: loadManifest and compareManifests of manifest.go. Merge: mergeTrees of
--   restore.go, on trees, with an argument for the errors of its calls.
-- - Config: internal/config/config.go, the byte sizes (Config, Config/Sizes) and Resolve
--   (Config/Policy). strings.TrimSpace trims every space of Unicode, strings.ToUpper is that of ASCII.
-- - Checks: tests, and the theorems at concrete inputs.
--
-- Function names are the source's in snake case: `seal_loop` is the loop of Encrypt, `open_loop` the
-- loop of Decrypt, `accept_record` its body between readRecord and the next round. A uint64 keeps its
-- wrap-around as `% 2 ^ 64`, the sum of two uint32 as `% 2 ^ 32`.
--
-- Fuel: the loop of Encrypt gets one round more than the source has bytes (each round but the last
-- takes at least one), the loop of Decrypt one round more than the stream has bytes (each round but
-- the last takes at least 13), the copy of Rekey likewise. `out_of_fuel` is no error of the program.
--
-- The loop of ScanTar over the parents of an entry gets one round for each segment of its name.
--
-- The loops over the parents of a path, in ValidateOutputTarget and rejectSymlinkComponents, get two
-- rounds more than the path has bytes: each round but the last two takes at least one byte.
--
-- Not modelled: extraction and creation of archives, workspaces, loading of the configuration, the
-- rest of the application, reports and interfaces; the wiping of key buffers, which changes no
-- result; closing of files that are read; the mutex of the credential store, since each call is
-- one step.
pub mod Base
pub mod Fault
pub mod Stream
pub mod Security
pub mod Credential
pub mod App
pub mod Config
pub mod Storage
pub mod Container
mod Checks
