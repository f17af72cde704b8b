-- ===== src/Lib.antt =====
-- Clicked: an end-to-end encrypted messenger. This library models the services of its backend
-- (apps/backend/src) that decide who may read, send and join, and the part of its web application
-- (apps/web/src/lib) that encrypts and decrypts, and proves what they promise.
--
-- The parts, and the files that model them:
--
--   * MLS groups. `Mls/Ledger.antt` is the ledger of groups, leaves, commits and welcomes of
--     apps/backend/src/services/mlsGroups.ts: `recordCommit` is `record_commit`, `getEpochWindow`
--     is `get_epoch_window`, and so on, each name in snake case. `Mls/Visibility.antt` is
--     lib/mlsVisibility.ts, which turns an epoch window into what a device can decrypt.
--     `Mls/Routes.antt` has the six handlers of routes/mls.ts, which guard the ledger;
--     `Mls/KeyPackages.antt` is services/mlsKeyPackages.ts, the stock from which other devices add
--     a device.
--   * The group-control log. `GroupControl.antt` is services/groupControl.ts: an append locks the
--     conversation, raises its epoch, takes the next sequence number and writes a timeline entry.
--   * Sending. `Payload.antt` is lib/validateMessagePayload.ts, the first test of a message;
--     `Capabilities.antt` is lib/capabilities.ts, the negotiation of a protocol between two
--     devices; `E2eeProtocol.antt` is services/e2eeProtocol.ts, which enforces it on the envelopes;
--     `Fanout.antt` is services/fanout.ts, which stores a message with one envelope for each
--     recipient device.
--   * Rate limits. `RateLimits.antt` is config/rateLimits.ts, the budget and its overrides;
--     `RateLimiter.antt` is services/rateLimiter.ts, the fixed-window counters.
--   * Socket events. `Dispatcher.antt` is socket/dispatcher.ts with lib/eventEnvelope.ts and
--     services/replay-protection.service.ts: the checks that an event passes before its handler
--     runs. Redis is the interface `KeyStore`, with the documented laws of SET NX EX in
--     `IsKeyStore`.
--   * Delivery. `Delivery.antt` is services/deliveryAggregation.ts: when a message counts as
--     delivered to a user, and what a device's receipt changes.
--   * Challenges. `Nonces.antt` is lib/nonce.ts, the nonces of logins and of device linking.
--   * Presence. `Presence.antt` is services/presence.ts with the calls of it by the gateway
--     (index.ts and services/heartbeat.ts), the clean-up of stale sockets included. Redis is the
--     interface `Redis`, with the laws of its commands in `IsRedis`.
--   * Key material. `KeyMaterial.antt` is lib/keys.ts, the schemas of the keys that clients
--     register.
--   * The web client, all under apps/web/src/lib. `IdentityTrust.antt` is identityTrust.ts, the
--     pins of a peer's identity keys, and the check of a batch in crypto.ts; `SealedBox.antt` is
--     the rest of crypto.ts, which seals a message for each device and posts it; `Inbound.antt` is
--     decrypt.ts, processEnvelope.ts and their caches in crypto/, which read what arrives;
--     `X3dh.antt` is x3dh.ts, the first agreement on a key; `Ratchet.antt` is
--     crypto/doubleRatchet.ts, the keys of a conversation. A message that is sent passes `IdentityTrust`, then `SealedBox`, then the
--     backend's `Payload`, `E2eeProtocol` and `Fanout`, then `Inbound`. The curves, HKDF, AES-GCM,
--     base64, JSON and the text encoder are interfaces: `Platform`, `Curves`, `Subtle`, `Json` and
--     `Reader` have the functions, and `IsPlatform`, `IsCurves`, `IsSubtle`, `IsJson` and
--     `IsReaderOf` the documented laws that the theorems use. Each has an instance on small
--     numbers among the tests.
--   * `Schema.antt` has the rows of db/schema.ts that several parts read, and `Prelude.antt` the
--     helpers that all share: tests on numbers, lists, queries over tables and logs.
--
-- The children of a module have its proofs, and a child called Tests its runs on concrete data.
--
-- How the code is modelled. A table is the list of its rows, and a query says which rows it
-- selects, updates or orders in the words of the source; nothing depends on the order of a scan. A
-- unique index or a check of a table is an insertion that may fail. A transaction is one step: the
-- source takes row locks where it reads what it will write, and a transaction that throws leaves
-- the tables as they were. The guards of a published commit read the tables before the transaction
-- does: they have a ledger of their own. Identifiers, device keys' ids and timestamps are natural
-- numbers, bytes and base64 text lists of them; where the code compares or joins the texts of ids, the
-- model has these texts too (`UuidText`, `id_text`). A nullable column is an `Option`; what the source draws at random
-- is an argument; a generated id is the next of a counter. Epochs, sequence numbers and counters
-- are natural numbers without bound: they are JavaScript numbers or bigint columns in the source,
-- which are exact up to 2^53. No function needs fuel: all recursion is on lists, or on a number of
-- rounds that the source computes first. The text functions of the standard library (`trim`,
-- `toLowerCase`, `parseInt`, `split`) are parameters, and what Redis answers to a request of the
-- rate limiter is an argument of the request.
--
-- Not modelled: what is sent to sockets, logs and metrics; the length limits of request bodies; the
-- routes other than those of MLS, the handlers of socket events, push notifications, device
-- registration and revocation, clean-up jobs, the object store and the Stellar listener of the
-- backend; of presence, the expiry of keys, the delay of the offline broadcast and the rooms
-- rebuilt at start; of the web application, the pages and hooks, the session layers that are not
-- wired to them, the key stores, and fileEncryption.ts, whose upload route the backend does not
-- serve; the assistant agent and the smart contracts. In the double ratchet, the exceptions that the
-- curve throws at keys of low order are left out.
pub mod Prelude
pub mod Schema
pub mod Mls
pub mod GroupControl
pub mod Capabilities
pub mod E2eeProtocol
pub mod Payload
pub mod Fanout
pub mod RateLimits
pub mod RateLimiter
pub mod Dispatcher
pub mod Nonces
pub mod Delivery
pub mod Ratchet
pub mod X3dh
pub mod IdentityTrust
pub mod KeyMaterial
pub mod SealedBox
pub mod Inbound
pub mod Presence
