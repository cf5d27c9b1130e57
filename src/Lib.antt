-- ===== src/Lib.antt =====
-- SecureVault: an end-to-end encrypted document store. Clients encrypt documents, the server keeps
-- them with records of who shares which file key with whom, and the cryptography is written out in
-- the repository. This library models the cryptography, the binary formats, the frames on the wire,
-- the server with its handlers, the client with its keystore and trust store, and the proxy that
-- attacks the traffic between the two.
--
-- Base, Bits, Bytes and Text hold what the parts share: Python calls that return or raise (only
-- the class of an exception is kept), bitwise lemmas, byte strings as lists of numbers, and text as
-- a list of code points with Python's UTF-8 encoding and strict decoding. Actions holds calls that
-- return or raise and change a state; an exception leaves the changes before it.
--
-- Crypto.Sha256 models crypto/sha256.py: sha256, and the class Sha256 as the record Hasher with
--   update and digest. Padding, Blocks and Streaming hold its lemmas.
-- Crypto.Hmac models crypto/hmac.py and crypto/kdf.py, Crypto.Aes crypto/aes.py and Crypto.Gcm
--   crypto/gcm.py, whose encrypt and decrypt run the block cipher and GHASH.
-- Crypto.P256 models crypto/ec_p256.py, with a point as an Option: none is the point at infinity.
-- Crypto.Ecdsa models verify and the signature encoding of crypto/ecdsa.py, and Crypto.Ecdsa.Sign
--   key generation, RFC 6979 and sign. Crypto.Vectors runs published test vectors on these
--   definitions.
-- Crypto.Ecdh models crypto/ecdh.py.
-- Formats models common/formats.py: Reader its packing helpers and the cursor class _Reader as a
--   state-passing reader, Document, Payload and Share the three kinds of records with pack_* and
--   unpack_*; Codec says when a packing function and a reading method fit together.
-- Encodings holds base64, as CPython decodes it, and hexadecimal text.
-- Wire models common/wire.py: the message types, JSON values (Json) and in Frame the frames, read
--   from a socket that is the list of the pieces in which the bytes arrive.
-- Server.Session models server/session.py; Server.Tables and Server.Db model server/db.py, with a
--   table as the list of its rows; Server.Access models _authenticate of server/server.py, where the
--   session and the database meet. Server.Requests models how a payload is read, Server.Service the
--   state of the server and the ways in which a handler runs (an exception leaves what was written
--   before it), and Server.Handlers the ten handlers and _dispatch. Server.Moves says which changes
--   of the state any request can make, and Histories what any list of requests leaves true.
--   Server.Replies gives the messages in which the replies are sent.
-- Client.Keystore models client/keystore.py and Client.TrustStore client/trust_store.py, over the
--   files of Client.Disk, whose calls may each raise OSError, a write after any part of it. The other modules of Client model client/client.py: Session the fields of
--   SecureVaultClient, _rpc and the small helpers, over a World of the files, those fields and the
--   requests sent so far; Paths the names of the files; Requests the payloads; Account signup, login,
--   logout and change_password; Contacts _get_verified_pubkey and mark_contact_verified; Sealing and
--   Opening what upload, share and download compute; Documents those three operations.
-- Attacker models one connection through attacker/attacker_proxy.py, in every mode, over a server
--   with a state of its own.
-- Examples applies the theorems at concrete inputs.
--
-- Bounds and fuel. The padding loop of SHA-256 has 64 rounds, one more than it can use. Decoding
-- UTF-8 has as many rounds as bytes. Euclid's algorithm for the modular inverse has one round more
-- than the modulus, and the double-and-add loop as many as its scalar, which is halved each time.
-- The loops of RFC 6979 and of key generation have no bound: the number of rounds and the draws are
-- arguments, and a result of none says that the loop has not ended with them; the client and the
-- proxy then raise `unfinished`, which nothing in the model catches.
-- The loop of _recv_exact has as many rounds as bytes are wanted, since each takes one at least. The
-- 64-bit length fields of SHA-256 and GCM are written modulo 2^64, which no byte string reaches.
--
-- Outside the library: the clock, the random source, files, sockets, the JSON text and SQLite, which
-- the definitions take as arguments or represent by what the code relies on (unique primary keys,
-- ordering, and the errors of binding integers outside 64 bits and text without UTF-8). What int()
-- reads in a text is an argument too. Values of a wrong Python type are represented only where they
-- come from JSON. For the client, Argon2, the text of JSON, the prompt for a new contact, the faults of
-- the calls that write files and the peer are the fields of Client.Session.Runtime. The peer is any
-- function of the requests sent so far, so that the server, a server that lies and a proxy are
-- instances of it, and the faults are any function of the call and the files. Reading a file that is
-- there does not fail, except where it fails to be JSON. What os.urandom, the key generation and the
-- clock give to an operation is an argument of it. The listeners and the threads of the server and of
-- the proxy are not modelled: requests follow one another. client/cli.py, client/gui.py, the
-- demonstrations and the tests are input and output or callers, and are left out.
pub mod Base
pub mod Actions
pub mod Bits
pub mod Bytes
pub mod Text
pub mod Encodings
pub mod Crypto
pub mod Formats
pub mod Wire
pub mod Server
pub mod Client
pub mod Attacker
pub mod Examples
