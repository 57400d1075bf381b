-- ===== src/Lib.antt =====
-- Jackdaw is a relay between ACME clients and Let's Encrypt. A client speaks RFC 8555 to the
-- routes; each request is signed (a JWS) and carries a nonce. The routes read and write five
-- tables and start background tasks: one validates an HTTP-01 challenge, one has a certificate
-- issued.
--
-- The parts, in the order of their dependencies:
-- - Base, Result, Exec: shared names, tables as lists of rows with a text key (`select`, `update`,
--   `get`, `count` are the SELECT, the UPDATE, `db.get` and the row count of the code), results
--   with HTTP errors (`raised`) and exceptions that no route catches (`uncaught`), and handlers as
--   state passing: what was committed before an exception stays committed.
-- - Config: src/jackdaw/config.py. Db: src/jackdaw/db/models.py. AcmeErrors:
--   src/jackdaw/acme_errors.py. Schemas: src/jackdaw/schemas/acme.py. Json: JSON values and the
--   Python operations on them that the code uses.
-- - Nonce: src/jackdaw/services/nonce.py (`generate_nonce`, `consume_nonce`, `prune_nonces`).
-- - Jws: src/jackdaw/services/jws.py and src/jackdaw/_util.py. `verify_jws` is `open_envelope`
--   (the body and its header), `authenticate` (claims, key and signature) and `accept` (nonce,
--   payload).
-- - Base64: what `b64url_decode` of src/jackdaw/_util.py gets from Python's base64.
-- - Ownership: src/jackdaw/services/ownership.py.
-- - Accounts: src/jackdaw/routes/account.py; Accounts/KeyChange: src/jackdaw/routes/keychange.py.
-- - Orders: src/jackdaw/routes/order.py; Orders/Finalize: its `finalize_order`, cut into the
--   checks and the claim, the conditional UPDATE that one request wins.
-- - Challenge: src/jackdaw/routes/challenge.py and src/jackdaw/routes/authz.py.
-- - CertStore: src/jackdaw/services/cert_store.py. Revoke: src/jackdaw/routes/revoke.py and
--   src/jackdaw/routes/cert.py.
-- - Http01: src/jackdaw/services/http01.py.
-- - Dns: src/jackdaw/dns/base.py, loader.py and providers/null.py. Dns/Namecheap:
--   src/jackdaw/dns/providers/namecheap.py; Dns/Namecheap/Steps has the steps of several tasks
--   on one domain, cut where they wait for the API. Dns/Sigv4 and Dns/Route53:
--   src/jackdaw/dns/providers/route53.py. Dns/Rest, Dns/Cloudflare and Dns/Porkbun: cloudflare.py
--   and porkbun.py beside it.
-- - Engine: src/jackdaw/db/engine.py and src/jackdaw/migrations/versions, the schema of a file as
--   tables, columns and indexes, and the statements that change it.
-- - Upstream: src/jackdaw/services/le_client.py. `_apex_domain`; Upstream/Polling:
--   `_poll_order_for_cert`; Upstream/Finalize: `new_order` and `finalize_and_wait` with the map of
--   order urls that they share; Upstream/Dns01: `fulfill_dns_01`, `clear_dns_01`, `acme_problem`;
--   Upstream/Locks: `domain_lock` and `order_cert`, whose calls take their locks in any order;
--   Upstream/Account: the key of the relay's own account and the filter on challenges.
-- - RelayCert: src/jackdaw/services/relay_cert.py, the pair of files as a record and a write as a
--   list of file operations. Serve: src/jackdaw/serve.py, the boot over a list of attempts.
-- - Middleware: the middleware, the pruning loop and the start of src/jackdaw/main.py, and
--   src/jackdaw/routes/directory.py.
-- - Worker: src/jackdaw/worker.py. `run_challenge` is `begin_challenge` and `finish_challenge`,
--   with the network in between; `process_finalize` ends in `finish_finalize`. Tasks: the tasks
--   that the routes start. Startup: `_reset_processing_orders` of src/jackdaw/main.py.
-- - System: the database and the tasks in flight, and the events that change them in any order.
--   A finalize request and a challenge run await between what they read and what they write, and are
--   more than one event. A request for a new order and one that acknowledges a challenge are one event
--   each, as if nothing else ran between their reads and their commit. Where a check and the write that
--   it protects are apart, the overlaps have their own steps: Nonce/Cap (the count and the insert of
--   `generate_nonce`), Orders/RateLimit (the checks and the commit of `new_order`) and Accounts/Overlap
--   (the look-up and the commit of `new_account` and `key_change`). Elsewhere a handler is one
--   function on the database.
--
-- Parameters. What the code calls outside its own text is an argument: base64, json, josepy and
-- pydantic (`Codec`, with `none` for an exception), the parser of certificates (`X509`), the name
-- server, the parser of IP addresses and the HTTP client (`Resolver`, `Fetch`), the API of
-- the DNS providers (`Api`, `Rest`, with their contracts `Honest`, `RefusesDuplicates` and
-- `KeepsRecords`), Alembic (`RunsRevisions`), Let's Encrypt (`Issuer`, `Attempt`), the clock and the random values.
--
-- Numbers. Times are natural numbers of seconds, settings are natural numbers, and a cutoff before
-- the epoch is 0. No integer of the modelled code has a fixed width. The digits of a serial are
-- computed on fuel one above the serial, more than it has digits. The loop over the attempts of a
-- validation counts down from the number that is configured, the one over the polls from sixty.
-- The endless loops of the boot, the renewal and the pruning run over the rounds they are given.
--
-- Not modelled: the registration of the relay's account (gufo-acme does it), the sessions of the database engine, the downgrades of the
-- migrations, src/jackdaw/migrations/env.py, uvicorn and the wiring of FastAPI, logging, headers
-- other than `Location`, `Link` and `Replay-Nonce`, and the routes with a fixed reply. A failure
-- of a file operation that does not kill the process is left out of RelayCert, and so is one of
-- `load_cert_chain`.
pub mod Base
pub mod Result
pub mod Exec
pub mod Config
pub mod Db
pub mod Nonce
pub mod Json
pub mod Jws
pub mod AcmeErrors
pub mod Ownership
pub mod Schemas
pub mod Tasks
pub mod Accounts
pub mod Rows
pub mod Orders
pub mod Challenge
pub mod CertStore
pub mod Revoke
pub mod Http01
pub mod Upstream
pub mod RelayCert
pub mod Serve
pub mod Dns
pub mod Middleware
pub mod Engine
pub mod Base64
pub mod Worker
pub mod Startup
pub mod System
