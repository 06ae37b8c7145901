-- ===== src/Lib.antt =====
-- The Link client of this repository, in antt: its OAuth device login, its token source, its request
-- engine, its session stores, its spend requests and its other resources.
--
-- The program is a client library. A resource (AuthResource, SpendRequestsResource, ...) builds requests
-- and reads answers; the engine (core.do) sends them, asks the token source for a bearer token and
-- replays a refused GET once; the token source reads and refreshes the session in an AuthStorage,
-- which the login flow writes. What a client shares with other clients and processes is in the
-- storage, behind its gate; the goroutines of one client share the source's refresh too.
--
-- Files and code:
--   Errors            errors.go: sentinels, APIError, TransportError, errors.Is, errors.AsType
--   Json              encoding/json's fields of an object, as far as the OAuth answers use them
--   World             what a client meets: the clock, the network, contexts, other users of the store
--   Transport         transport.go: do and doAttempt are `perform`, `engine`, `attempts`, `do_attempt`
--   Session           types.go, storage_codec.go: the tokens, the snapshot and its preparation
--   Storage           storage.go: storageGate.lock, and AuthStorage as a record with its contract
--   MemoryStorage     memory_storage.go, an implementation of that record
--   StorageCodec      storage_codec.go: the document of a file store, and the session in it
--   Disk              the file system that a file store works on, with rules for its calls
--   StorageFile       storage_codec.go, the storage_lock and storage_sync files: acquireStorageLock,
--                     readStorageState and writeStorageState
--   FileStorage       storage.go, storage_codec.go: withState and the operations over it, another
--                     implementation of the record; Path the path that NewFileStorage finds
--   Auth/Wire         auth_tokens.go: the decoders of answers and errors
--   Auth/Tokens       auth_tokens.go: postForm, RefreshToken, RevokeToken, Logout
--   Auth/Device       auth.go: InitiateDeviceAuth, PollDeviceAuthOnce and their transactions
--   Auth/Poll         auth.go: PollDeviceAuth (`round`, `rounds`) and ResumeDeviceAuth
--   TokenProvider     tokens.go: token (`decide`, `act`), runRefresh, waitForRefresh;
--                     Flight its shared calls as a step relation
--   Types             types.go: what spend requests send and receive; PaymentToken the reader
--                     UnmarshalJSON of a shared payment token
--   SpendRequests     spend_requests.go: the operations; Validation its checks, Decode its readers
--   Resources         reports.go, payment_methods.go, shipping_addresses.go, user_info.go, doJSON
--   WebBotAuth        web_bot_auth.go: authorities and blocks; Fetch fetchWebBotAuth; Flight the cache and
--                     the shared calls of SignURL as a step relation, and Flight/Caller one caller of it
--   Diagnostics       transport.go: truncateDiagnostic; CardNumber isBareCVC, isPaymentCardNumber; Utf8,
--                     Search and Patterns the texts and regular expressions; Message extractAPIErrorMessage and
--                     sanitizeDiagnosticText; ErrorText errors.go: what fmt prints of errors; Summary
--                     what it prints of the other values; Log transport.go: the log of doAttempt
--   Client            client.go: the base URLs and the default headers; Construction NewClient
--   Examples          the theorems at concrete inputs
--
-- State and effects: an operation is a function of a `World`, the storage's state with the time, the
-- requests sent so far and a count of events, and returns a result or an error with the next World. At
-- an event (a request, a wait for a lock, a sleep) the environment `Env` says how much time passes, what
-- others do to the storage and what the server answers, each as a function of the count: theorems hold
-- for every one of them. The world also notes at which events others have acted and lock files were
-- granted; no code reads that. A context is a function too, so that it may end between two looks at it.
--
-- The shared state of the token source, and that of web bot auth, is a step relation apart from that: a
-- step is one critical section under its mutex, and a theorem on it holds for every interleaving; a return
-- of runRefresh may come for any call and at any time.
--
-- Bounds and fuel: times are nanoseconds since the epoch, in ℕ; a wire integer is a ℤ that is an int64;
-- a generation is a uint64 and wraps to 1. A poll interval keeps the 64 bits of its Duration. Two loops
-- run on fuel: PollDeviceAuth, one unit for a round, where more units than seconds are left to the flow
-- are enough, since each round waits for a second or until the flow expires; and the trimming of
-- bytes, where the length is enough, since each step strips a byte (the digits of a number likewise). The engine's loop counts its
-- attempts down, and the loop for the lock file the refusals of flock.
--
-- Parameters: http.Client, the request construction, os.Hostname, encoding/json on the resources'
-- types, url.PathEscape and fmt's texts are arguments, and so is the token source of the engine. Web bot
-- auth takes net/url, net.ParseIP, strings.ToLower and time.Parse as the record `Net`, the client net/url,
-- net, textproto and strings.EqualFold as `ClientNet`; NewClient os.Getenv and http.DefaultTransport as
-- `Process`, path/filepath and os.UserConfigDir as `Paths`, and fmt's %q is an argument. Package regexp is
-- not a parameter: `Search` has its search, on the constructs that the five patterns use.
--
-- A file store's calls of the system are parameters too: `Documented` says that each has its documented
-- effect or fails, a failed write leaving any text, and that the text that json.Marshal makes of a
-- document is read as an object with the document's entries. A missing file is what the disk says, not an
-- error of a call. How often flock refuses, by EWOULDBLOCK or EAGAIN, is a number that the system gives, so that a lock that is never
-- released is left out. A number that its Go type cannot hold does not exist in Go: to encode it is an
-- error.
--
-- That others leave the file alone while a client has the lock file, or stands behind its gate, is what the
-- model takes a lock to do: others act at the waits only. On a system without flock nobody waits for a lock file, and what is proved of a file store supposes that
-- the other users of its file are clients of the same instance.
--
-- Not modelled: nil receivers, but for the token's UnmarshalJSON; the calls of the logger, whose lines `Log`
-- has apart from `do_attempt`; the closing of a lock file, whose error is dropped; what
-- json.Marshal makes of invalid UTF-8, since a string is a list of characters; the example program.
pub mod Prelude
pub mod Errors
pub mod Json
pub mod World
pub mod Transport
pub mod Session
pub mod Storage
pub mod MemoryStorage
pub mod StorageCodec
pub mod Disk
pub mod StorageFile
pub mod FileStorage
pub mod Auth
pub mod TokenProvider
pub mod Types
pub mod SpendRequests
pub mod Resources
pub mod WebBotAuth
pub mod Client
pub mod Diagnostics
pub mod Examples
