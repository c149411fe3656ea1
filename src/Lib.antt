-- ===== src/Lib.antt =====
-- KeyQuorum keeps secrets of teams: a vault of credentials and files, share links to them, PINs, keys
-- that are split over the hardware keys of a tree of holders, and a relay that carries sealed
-- envelopes and the public shape of those trees. Each part is a set of functions on tables of a SQLite
-- database; the tables are modelled as lists of rows, each function by the statements that it sends.
--
-- The files, and what of the repository each is about (paths from the repository's root):
--   Prelude          tests, lists, equality, and the SQL statements on a table (Prelude/Sql)
--   Error            src/error.rs
--   Sharing          src/sharing.rs: share links. Sharing has the functions on one table,
--                    Sharing/Tables the two tables; Sharing/Steps runs any sequence of statements of
--                    any connections, Sharing/Follows has what it makes of one row, Sharing/Redeem and
--                    Sharing/Create are about redeeming
--   Signing          src/signing.rs: Utf8, BigEndian and Reader are the reader's helpers,
--                    Artifact the encoding, Verify signing and verification, Binding about what a
--                    signature binds
--   Pin              src/pin.rs: the PIN gate; Lockout is about one guess, Guessing about many
--   Keys             src/keys.rs: the look-ups of registered keys; Register registers them, Revoke
--                    revokes and removes them, Curve reads the bytes of a key file and OpenSsh is
--                    about its OpenSSH form
--   KeyTree/Spec     src/key_tree.rs: NodeSpec and validate
--   KeyTree/Arena    src/key_tree.rs: the rows, load, and reconstruction; Policy has the policy that
--                    a tree stands for, Ancestors the lowest common ancestor
--   KeyTree/Bridges  src/key_tree.rs: the whitelist and the established pairings
--   KeyTree/Public   src/key_tree.rs: the public tree
--   KeyTree/Visible  src/key_tree.rs: who sees what of it; Walk is about the walk to the root, Closed,
--                    Seeds and Complete about the loops
--   Refresh          src/pss.rs: adding shares and the refresh among survivors; Shape is about what
--                    both keep of a share, Secret about the secret, with Laws what is asked of the
--                    scheme, Entries, Deltas and Rounds the loops, and Copies a scheme for the tests
--   PrivateBridge    src/private_bridge.rs: SortedMap has the ordered maps, Labels who is notified (Parents),
--                    Roster the parties; Package/Maps, Letter, Envelope and Auth are the file that is
--                    delivered, Signed what of it is signed, RoundTrip and Sealed about reading it
--                    back. Store has the tables of
--                    src/db/schema.sql and the transaction of src/db/mod.rs, Summary what is read from
--                    them, Delivery and Removal the plans, Commit what stores them, Import the
--                    packages that come in, Coordinator the dropping of a member without a key,
--                    Messages signing and verifying. History is about any sequence of operations:
--                    Rows and Later are its lemmas, Planned, Imported and Dropped its steps
--   Relay/ApiKey     src/relay/api_key.rs: API keys and the licensee issuer; Sessions has the
--                    operations that take a bearer
--   Relay/Mailbox    src/relay/mailbox.rs: reading an inbox; Paging is about following its pages,
--                    Storing has what puts an envelope there
--   Relay/OrgTree    src/relay/org_tree.rs: validating (Total), publishing (Publish), merging (Merge)
--                    and slicing (Slices) the trees that members publish; OneTree is a JSON for tests
--
-- A leaf of a tree names a key of Keys. A Spec is validated before it is split; an Arena is loaded
-- from the rows that the split left, and Bridges loads it to look up labels. Visible works on the
-- parents and children of a public tree, which OrgTree keeps and slices. API keys use the token codec
-- of share links. A private bridge signs with Signing; its packages reuse the readers of Signing, whose
-- bodies src/private_bridge.rs repeats.
--
-- Code outside the repository is a parameter: base64, SHA-256 and SQLite's date arithmetic
-- (Sharing.TokenCodec), hex decoding (Relay.OrgTree), the JSON of a
-- public tree (Relay.OrgTree.TreeJson, which reads back what it has written),
-- crypto_box and X25519 (PrivateBridge.Roster.CryptoBox), Ed25519 (Signing.Verify.Ed25519), Argon2id
-- (Pin.Kdf), and the Shamir scheme of the crate blahaj (KeyTree.Arena.Shamir, with its documented laws
-- in KeyTree.Arena.Policy.IsShamir; for a refresh, with Refresh.Laws.IsInterpolation).
-- Random bytes are arguments, and so is the time, in whole seconds. A statement of SQLite is atomic.
-- Share links are modelled with other connections writing between the statements; the other tables
-- with one connection, except that a planned removal may be committed to another store than it was
-- planned over. A private bridge's generation is a u32 whose increment wraps around.
--
-- Bounds: byte strings are lists of numbers, a threshold is the value of its u8 (the conversion
-- `threshold as u8` is written out), row ids are natural numbers. Loops over a structure recurse on
-- it. Reconstruction recurses on fuel, for which the depth of the policy is enough; the loops of the
-- visibility computation recurse on fuel, for which one more than the number of known labels is enough;
-- the walk to the root in Ancestors recurses on fuel too. The walks that validate a published tree have
-- fuel, for which two more than the number of nodes is enough.
--
-- Not modelled: building and splitting a tree, adding and evicting leaves, applying a published tree,
-- quorum files, the vault, locked files and bundles, the text of key files, the relay's HTTP server and
-- client, the database's migrations, the JSON detail of the events of private bridges, and the command
-- line.
pub mod Prelude
pub mod Error
pub mod Sharing
pub mod Signing
pub mod Pin
pub mod Keys
pub mod KeyTree
pub mod PrivateBridge
pub mod Refresh
pub mod Relay
