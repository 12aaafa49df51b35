-- ===== src/Lib.antt =====
-- Two ways to move a large file between two hosts: over one mutually authenticated TLS connection
-- (approach-a-tls-mtls), and as signed and encrypted blobs through a broker that nobody trusts
-- (approach-b-broker-envelope). Both stand on the helpers of common/util.py.
--
-- The parts, and where they are modelled:
--   Bytes, Socket, Util   common/util.py: `struct` integers, `recv_exact`, `send_frame`, `recv_frame`,
--                         `sha256_file`, the constants; `atomic_promote` when the machine goes down
--                         (Util/Durable)
--   Tls/Sender            approach-a-tls-mtls/sender.py: `stream`, the exceptions that `main` catches
--   Tls/Receiver          approach-a-tls-mtls/receiver.py: `receive`
--   Tls/Blocks            the loop that feeds a prefix to the hash, `_hash_prefix`, which both have
--   Tls/Main              `main` of both, behind the command line
--   Envelope, Text        approach-b-broker-envelope/envelope.py: key derivation, nonces, associated
--                         data, the names of the blobs, the loading of keys (Pem)
--   Broker                approach-b-broker-envelope/broker.py: `_KEY_RE` and `_safe_path` (Key), the
--                         storage root (Storage), `_handle_command` and `_serve_client` (Command), PUTs
--                         at the same time, two of one key (Race) and any number (Writers)
--   Receiver              approach-b-broker-envelope/receiver.py: the ledger and the progress file
--                         (State), `_resolve_transfer_id`, `_fetch_verified_manifest` and what is read
--                         from the manifest (Manifest), a chunk (Opening), the loop (Chunks), `receive`
--                         and the exit code of `main` (Receive)
--   Sender                approach-b-broker-envelope/sender.py: `_load_or_create_state` (State), the key
--                         and the encryption of a chunk (Sealing), the loop (Chunks), the number of
--                         chunks (Count), `send` and the exit
--                         code of `main` (Send)
--   Client                approach-b-broker-envelope/broker_client.py: `_connect`, `_run`, `put`,
--                         `get`, `stat`, `list`
--   Json                  the values that `json.loads` returns; the order of the keys that
--                         `canonical_manifest_bytes` of envelope.py asks for (Canonical)
--   Session               a command of the client and the session of the broker that serves it, each
--                         on the bytes that the other sent
--   Proxy                 scripts/tamper_proxy.py: `_relay`, one direction of it, the two threads as steps in
--                         any order (Link), `_hostport` and `main` (Main)
--   Directory             files with permissions, as the two generators write them
--   Keys                  approach-b-broker-envelope/gen_keys.py; `send` and `receive` with the loading of
--                         the keys
--   Certificates          approach-a-tls-mtls/gen_certs.py; `build_server_context` and
--                         `build_client_context`, and both programs with them (Context); whom a TLS
--                         handshake accepts with them (Handshake, Vouched, Trust)
--   Transfer              the way of a file from sender.py over a broker to receiver.py: the names of
--                         its blobs (Names, Keys), what the broker promises (Promise), what the
--                         sender leaves (Store, Upload), what the receiver makes of it (Records,
--                         Reading, Download, Steps, Delivered)
--   Prelude, Result, Exec, Dict   what the parts share: lists and numbers, exceptions as values, code
--                         that changes a state and may raise, association lists
--   Tests                 the theorems at concrete inputs, and runs of the code
--
-- How the code is represented:
--   - Code that may raise returns a `Result`, and code with a state is an `Exec S A`, a function from the
--     state to a result and the new state, which is kept when an exception is raised.
--   - A socket is what the peer has sent and is not read yet, how that stream ends (closed, or broken by
--     an error), what this side has sent, and after how many bytes sending breaks. How many bytes each
--     `recv` returns is a field of the socket that the theorems leave open. The two sides of a connection
--     are run one after the other on what the other one sent.
--   - A file is an `Option` of its bytes. The TLS receiver has the partial and the final file; the broker
--     has directories of files; the receiver of approach B has the two files, and of its JSON files
--     (progress and ledger) the value that they hold, or that they are missing or damaged.
--   - A hash object is the list of the bytes that it was fed. Integers are natural numbers; those that
--     `struct` and `int.to_bytes` write are checked against 2 ^ 64. The age of a manifest, which may be
--     negative, is written as two comparisons of sums.
--   - The number of chunks is that of Python, where the quotient is a float: the size is rounded to 53 binary
--     digits (Sender/Count). The delivery theorems of approach B are about files below 2 ^ 53 bytes.
--   - A key is its raw bytes; a certificate is the fields that its builder was given and a signature of them.
--     What accepting a connection gives is a function of the SSL context.
--   - A thread of the proxy is where it stands in `_relay`, and a step of it is one call on a socket.
--   - The answers of the broker to its receiver are a function that the theorems leave open, so that they
--     hold for every broker; one run sees one answer for each request. Where the broker is the modelled
--     one (Session), each command of the client has a connection of its own, although the client keeps one
--     open; what the broker makes of many requests on one connection is stated of the broker alone
--     (Session/Sequence).
--
-- Parameters: SHA-256, HKDF, X25519, Ed25519 and ChaCha20-Poly1305 are the record `Crypto`; UTF-8 and
-- `repr` are the record `Codec`; PEM texts of keys are the record `Pem`, and keys, signatures and
-- PEM texts of certificates the record `X509`; the umask is a function; `json.loads` and `json.dumps`, the
-- time, `int` of a text, the random bytes, the keys and the command line are fields of `Setting` and
-- `Sending`; what the sender uses of the broker's client
-- is the interface `Client`, which the model of broker_client.py fills, and of which `IsStore` says what
-- the sender needs. Of SHA-256 the delivery theorems use only that a digest has 32 bytes, and of JSON
-- that the parser reads what the printer printed, its keys sorted.
--
-- Loops and fuel: the loop of `recv_exact` has one round for each byte asked for and one more, that of
-- `sha256_file` and the sender's loops one for each byte of the file and one more, `recv_chunks` one for
-- each byte that is pending and one more; a round uses up at least one byte. The error `diverged` stands
-- for running out, and the theorems on these loops exclude it. `serve_client` has its fuel as an
-- argument, since a session lasts as long as the client wants; one round more than there are bytes is
-- enough. `to_float` doubles its unit up to 63 times, which serves sizes up to 2 ^ 116; a file has less than
-- 2 ^ 63 bytes.
--
-- Not modelled: the command lines, the output to the terminal (`Throughput`, `human_bytes`), errors of the
-- disk, fsync but for that of `atomic_promote` (Util/Durable), the threads of the broker but for the steps of
-- PUTs (Broker/Race, Broker/Writers), and negative numbers and fractions in a manifest, of which a sender
-- writes none. Of the ssl module, what a context accepts is written out in Certificates/Handshake as
-- documentation has it (paths of certificates, their path lengths, purposes, names and times), and nothing
-- else.
pub mod Prelude
pub mod Result
pub mod Exec
pub mod Bytes
pub mod Socket
pub mod Util
pub mod Tls
pub mod Text
pub mod Envelope
pub mod Dict
pub mod Broker
pub mod Json
pub mod Receiver
pub mod Sender
pub mod Session
pub mod Transfer
pub mod Directory
pub mod Keys
pub mod Certificates
pub mod Proxy
pub mod Client
pub mod Tests
