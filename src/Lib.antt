-- ===== src/Lib.antt =====
-- PWDnow, the web client's vault core.
--
-- The program keeps a vault of credentials and folders in the browser (web/src). This library
-- models the part that turns a vault into a `.p2w` backup file and back:
-- web/src/utils/p2wFormat.ts, with the vault's types of web/src/types.ts; and the checks and views
-- of payment cards, web/src/utils/cardUtils.ts, which the card form calls on its own; and the
-- counters of failed logins and the travel mode of web/src/utils/securityModes.ts, which the login
-- and the settings pages call. Beside
-- these stand the second factors (web/src/utils/mfa.ts), the CSV files of other managers
-- (web/src/utils/importExport.ts), the queue of writes made offline
-- (web/src/utils/offlineQueue.ts), the list of login sessions (web/src/utils/sessionTracker.ts),
-- and of the server its key-value store and its limits (web/lib/stateStore.js,
-- web/lib/rateLimiter.js), which the server asks before each login, its sessions
-- (web/lib/session.js), of which each login records one and each request asks for one, and its
-- audit log (web/lib/audit.js), to which each login adds an event.
--
-- Prelude and its children hold shared notation, lists over the native numbers, results of code
-- that throws, and byte masks. Text holds JavaScript strings as lists of UTF-16 code units, with
-- `split`, `join` and `trim`; TextEncoder and TextDecoder are the record TextCodec, whose law is
-- that a well-formed text without a byte order mark survives encoding and decoding. Text.Rows writes
-- rows of texts as one text, for the concrete inputs of theorems. Types holds
-- Folder and Credential.
--
-- P2w.Format holds the constants and the errors. P2w.Writer is the class BufWriter, P2w.Reader
-- the class BufReader, whose methods pass the object on as a value. P2w.Fields holds the
-- tag-length-value fields (writeStrField, writeU32Field, readFields, strF, u32F), P2w.Padding
-- getPaddingTarget, P2w.Build the record encoders and buildPayload, P2w.Parse parsePayload as a
-- loop over records whose local variables are the record Parser. P2w.File holds isP2WFile,
-- exportToP2W, importFromP2W with importV1 and importV2, doubleEncrypt and doubleDecrypt, timingSafeEq, readP2WTimestamp and
-- readP2WCipherSuite. The children of each module hold its lemmas and theorems; P2w.Examples
-- runs the theorems at concrete inputs.
--
-- CardUtils models cardUtils.ts: the networks, detectCardNetwork, formatPan, maskPan, maxPanLength,
-- luhnCheck and isPanComplete. Loops over a text are structural; the Luhn loop runs over the
-- reversed digits, as the source counts down.
--
-- SecurityModes models checkIsLockedOut, recordFailedLoginAttempt and resetLoginAttempts of
-- securityModes.ts: the stored lockout and duress configurations are the state, and the time is an
-- argument. What is stored there is taken to be what is read. SecurityModes.Travel models
-- enableTravelMode and disableTravelMode with the two items of the browser's storage and their
-- copies on the server as the state, and with the choice of the key derivation; JSON, the cipher, the
-- password hash, Argon2id and PBKDF2 are the record TravelCode with its round trips, and the
-- record Server says whether WebCrypto is there and which requests are answered. Arming and disarming the duress mode and the forensic wipe are not modelled.
--
-- Server.StateStore models the class InMemoryStateStore of web/lib/stateStore.js as an association
-- list; each method takes the time of its call, and a timer that runs out is the step `fire`, which
-- the runs of calls leave out: an entry that has expired answers like one that is gone.
-- Server.RateLimiter models web/lib/rateLimiter.js over it: the nine limits (one body, nine limits
-- of numbers), the lockouts of accounts and of fingerprints, and in FingerprintLog the log of
-- devices. String, Number and JSON of the stored records are parameters with their round trips.
--
-- Server.Audit models web/lib/audit.js: loadAuditLog with its check of the chain of hashes,
-- processAuditEvent, and the queue with its flush over the logs of all users. The keyed hash and
-- JSON.stringify are the record AuditKey; Chain.IsCollisionFree says what is relied on of them. A
-- flush runs over the queue as one sequence; what each event meets (its id, the time, the server's
-- address, a failing lock) stands in the queue with it.
--
-- Server.Sessions models web/lib/session.js and web/lib/csrf.js with two routes of
-- web/routes/auth/sessions.js: tokens (the record Tokens, whose law is that a token decrypts to its
-- claims until it expires), recordSession, authMiddleware, requireCsrf, logout and revoke-others.
-- The users and each user's stored sessions are the state Accounts.
--
-- Mfa models web/src/utils/mfa.ts: Base32 the encoder and decoder with their 32-bit values, Hotp
-- computeHotp and verifyHotp, Totp verifyTotp with the map of used periods as its state, EmailCode
-- the codes by mail, Config the configuration with registrations, assertions, hints and counts. The
-- HMAC, the browser's answers and the random draws are arguments; the loops run over the number of
-- counters or digits left, so no fuel can run out (a number below 10 ^ d has at most d digits).
--
-- ImportExport models the CSV part of web/src/utils/importExport.ts: Csv has parseCSV and csvEscape,
-- Import csvImport with findCol, Import.Formats the importers as the columns they look for, Export
-- the twelve exporters that escape each cell, Choice the branch of importFromFile that chooses an
-- importer by the first line of a CSV file, Zip createSingleFileZip and extractFromZip. The
-- browser's toLowerCase, URL, encodeURIComponent (on texts without lone surrogates, where it does not
-- throw) and UUIDs are the record Browser. The JSON and XML formats and the
-- choice by the file's extension are not modelled.
--
-- OfflineQueue models web/src/utils/offlineQueue.ts over the stored item: readOutbox, writeOutbox,
-- queueWrite, clearQueuedWrite, getQueueSize and flushOutbox, whose loop runs over the queue's keys.
-- The encryption and its JSON are the record Session; a write that arrives while a flush waits for
-- the server is not modelled.
--
-- SessionTracker models web/src/utils/sessionTracker.ts over the stored item, with the browser's
-- sort as a stable insertion sort, and with writeEncryptedLocal and readDecryptedLocal of
-- web/src/utils/localCrypto.ts: each operation runs under the v2 key in memory, or none, and without
-- one nothing is written. JSON and the encryption under numbered keys are the record SessionCodec:
-- an item is read under the key it was sealed under and under no other.
--
-- Bytes and code units are numbers of ℕ; a write masks its value to its width, as the source
-- does. The two loops of the reader run on fuel: readFields on one more than the bytes left,
-- parsePayload likewise; each round consumes at least one byte, so the fuel never runs out, and
-- the theorems on errors show that no result is the mark for that. The search in a zip file runs
-- on one more than the file's bytes in the same way.
--
-- Not modelled: the ciphers, key derivation and MACs (third-party code, the record Crypto with
-- its laws: decryption undoes encryption, each cipher's tag takes 16 bytes, a MAC is 64 bytes), the
-- source of random bytes, dates and UUIDs (parameters), the clearing of buffers, and the optional fields
-- of a credential that the format neither writes nor reads; daysUntilExpiry and the settings of
-- the build's environment. The other modules of web/src/utils,
-- the user interface, the server's other routes and its repositories, the daemon and the monitor are outside
-- this library. Of mfa.ts the storing of the configuration, key URIs and error texts are left out;
-- of rateLimiter.js the Argon2 parameters and the hashes of request headers, of audit.js the cached
-- fetch of the server's address and the middleware, of session.js the cookies of the answers.
pub mod Prelude
pub mod Text
pub mod Types
pub mod P2w
pub mod CardUtils
pub mod SecurityModes
pub mod Server
pub mod Mfa
pub mod ImportExport
pub mod OfflineQueue
pub mod SessionTracker
