-- ===== src/Lib.antt =====
-- A verification library for FiberNuts: the payment relay, the testnet faucet, the wallet's
-- operations and payment requests, and the orders and payments of an event's market.
--
-- The relay (relay/src) holds one delivery slot for each registered order. A vendor registers an
-- order with a write and a read capability; a payer delivers one payload to the slot; the vendor
-- reads it and acknowledges it, or cancels the slot before a payload has come. The faucet
-- (faucet/src) pays a mint quote of a fixed amount over Fiber: its service reads the quote from
-- the mint, reserves a claim within the limits of its table, counts an attempt and sends the
-- payment, and later reconciles the claim with what the mint and the Fiber node say. Both are HTTP
-- servers with a table of requests per minute. The wallet makes, decodes and validates payment
-- requests and presents its operations. In the market of an event a vendor stores an order,
-- registers its slot at the relay, polls the slot and swaps the delivered proofs for fresh ones;
-- an attendee reviews the order's request, stores a payment locked to the vendor, delivers it and
-- checks what became of it, and both turn Fiber payments into ecash and back. Each works on one
-- stored snapshot, with the mint and the relay as ports.
--
-- Files:
--   Common, Table, Js, Http: shared types and lemmas; the statements that the stores run
--     against a table; errors as values; the values of JSON, the texts, the Map and the URL of
--     JavaScript; the request, `readJson`, the origin check and the rate table of the two servers.
--   Relay/Protocol: relay/src/protocol.ts (parseRegistration, parsePaymentPayload, payloadAmount,
--     digestPayload). Accepted holds what is accepted.
--   Relay/Store: relay/src/database.ts, one function for each method of RelayStore (register,
--     deliver, read, acknowledge, cancel, cleanup, expireRow, rowForRead). Changes says what a call
--     does to the table, Invariant and Lifecycle what every call keeps, Slots and Exchange what the
--     holders of the two capabilities see.
--   Relay/Server: relay/src/server.ts, the handler of a request. Access, Disclosure and Limits.
--   Faucet/Protocol: faucet/src/protocol.ts. Faucet/Store: faucet/src/database.ts, one function for
--     each method of FaucetStore; Reserving and Limits. Faucet/Upstream: faucet/src/upstream.ts
--     (HttpMintClient, HttpFiberClient, the packed asset script); Packing and Answers.
--   Faucet/Service: faucet/src/service.ts. Service has dispatch and applyPayment, Reconcile has
--     reconcile and reconcileStored, Claims has claimExclusive and claim; Steps says a claim is a
--     sequence of permitted steps, Attempts what the steps keep, Pays when a claim is paid, InFlight
--     how claims exclude one another. Faucet/Server: faucet/src/server.ts; Limits and Keeps.
--   Config: relay/src/config.ts and faucet/src/config.ts.
--   Wallet/Operations: wallet/src/domain/operations.ts. Wallet/PaymentRequest:
--     wallet/src/lib/payment-request.ts.
--   Market/Types, Errors, Fields, Ports: the stored records of market/src/domain/types.ts, what is
--     thrown, the tests of unknown values, and the interfaces of the wallet and of the relay.
--   Market/Manifest: market/src/event/manifest.ts. Market/Payment: market/src/domain/payment.ts
--     (createVendorRequest, validateEventPaymentRequest, createPaymentPayload). Accepted holds what
--     they accept.
--   Market/Runtime: market/src/domain/market-runtime.ts. Runtime has the session, the four commits and
--     assertRole; Orders has createOrder and registerStoredOrder, Settlement settleOrder, Inbox
--     pollOrder, cancelOrder and the resumption of an order by market/src/hooks/useMarket.ts, Payments
--     reviewPayment, confirmPayment, deliverStoredPayment and checkPayment, AddCash and CashOut the
--     operations of those names. A method is cut into one
--     function for each stage between two commits. Records, Rules and Run hold what a run for one stored
--     record keeps, for each kind of record; Keeps applies it to the operations; Verified, Once,
--     Delivery and Dispatched say what a settlement, a second payment, a delivery and a cash-out come to.
--   The Tests of a part run it at concrete data.
--
-- State and effects: a table is the list of its rows in rowid order; a method takes the reading of
-- the clock and the table and returns its result and the new table, and a transaction that fails
-- leaves the table as it was. A call of the faucet's service takes what the mint and the Fiber
-- node answer and the readings of the clock where the code takes them, and goes from one world to
-- another: the claims, and the payments sent, each with its claim. A call to the mint or the node
-- that throws is an error value. Each method of a store reads the clock once. A call of the
-- market's runtime goes from one session to another: the snapshot that is committed, the count of
-- the readings of the clock, and the calls that move value, each with the snapshot at that time. A
-- commit may fail, and what is committed before an error stays. Every stage of a `try` block names
-- its handler.
--
-- Parameters: SHA-256, HMAC, the URL parser, `Number(text)`, fetch, encodeURIComponent, cashu-ts,
-- random values, and the wallet and the relay of the market are arguments of what uses them. No
-- property assumes anything of them, but two: that of a delivery takes a storage that accepts what
-- is committed, and that of a created request takes an encoder and a decoder that read the text of
-- the request back.
--
-- Numbers are natural numbers; a subtraction that could be negative is written as a sum on the
-- other side. JavaScript's integers are exact up to 2^53 - 1, and the code's tests for that are in
-- the model. All recursion is structural, but for the decimal printing of a number, whose fuel is
-- the number itself plus one, which no number has digits beyond.
--
-- Not modelled: the texts of error messages, response headers other than
-- Access-Control-Allow-Origin, the start-up of the services and their timers, reconcileOpenClaims,
-- a request target that `new URL` refuses, an encoder of cashu-ts that throws, the interleaving of
-- two claims of different quotes at the calls to the mint and the node, the wallet's library of
-- proofs and its storage, the market's storage and its clients of the relay and the faucet, the
-- screens, and the mint's backend in Rust. The market's notices to the user are left out, and its
-- operations run one at a time, under the lock of market/src/hooks/useMarket.ts. `toLowerCase` and
-- `toUpperCase` are those of ASCII letters; keys are sorted by code point, where JavaScript sorts
-- by UTF-16 unit; a lone surrogate has no counterpart.
pub mod Common
pub mod Table
pub mod Config
pub mod Js
pub mod Http
pub mod Relay
pub mod Faucet
pub mod Wallet
pub mod Market
