-- ===== src/Lib.antt =====
-- The financial core of the EV charging platform.
--
-- A driver's wallet is money in a double-entry ledger: each method of the wallet posts a balanced
-- transaction and moves the two balance columns of the wallet's row by the same amount, inside one
-- serializable transaction of the database that is retried when the database aborts it. A payment
-- intent follows a payment through a state machine, a charging session another. The creation of a
-- session takes a connector and holds an amount in the driver's wallet, its completion captures the
-- price out of the hold, its failure releases the hold and the connector. Amounts of the ledger are
-- whole minor units in one currency.
--
-- Which file models which part:
-- - Prelude: native numbers, the integers that stand for `bigint`, tables searched by a column,
--   results with the failures of the services, and `Tx`, a statement or method inside a database
--   transaction: from the tables before it to a failure or a value with the tables after it.
--   `Action` is a method that opens its transactions itself: its tables stay, whether it throws or not.
-- - Money: apps/backend/src/payments/money/money.ts (Money.Text is the reading and printing of
--   integers, Money.Decimal is fromDecimal) and money-calculator.ts (Money.Calculator).
-- - Database: the rows and enumerations of packages/database/prisma/schema.prisma that these
--   services use, and `Db`, the tables together. An identifier that the database makes up is the
--   next number that no row has; time stamps and free metadata are left out. The checks that the
--   migrations put on the tables (no negative balance, positive amounts, what is captured and
--   released of a reservation is no more than its amount, currencies of three capital letters) stand
--   where the rows are written.
-- - Ledger: apps/backend/src/payments/ledger/ledger.service.ts and ledger.repository.ts.
--   Ledger.Posting is post, Ledger.Reversal is reverse, Ledger.Checks what post demands of a
--   posting. `hash` stands for financialRequestHash, SHA-256 of canonical JSON; the definitions and
--   the properties take any function of the request for it. Ledger.Balance defines the balance of an
--   account as credits less debits of all entries.
-- - Wallet: apps/backend/src/payments/wallet/wallet.service.ts and wallet.repository.ts.
--   Wallet.Support is the private helpers, Wallet.Retry is serializableTransaction,
--   Wallet.Operations is createWallet, credit, refund, get and setBlocked, Wallet.Reservations is
--   reserve, Wallet.Settlement is captureReserved and releaseReserved. Wallet.Invariant says what it
--   means that rows and ledger agree.
-- - Intents: apps/backend/src/payments/intents/payment-intent-state-machine.ts (Intents.Machine) and
--   create and transition of payment-intent.service.ts (Intents.Service).
-- - Charging: apps/backend/src/charging/domain/charging-session-state-machine.ts.
-- - Sessions: apps/backend/src/charging/charging.service.ts and the files around it. Sessions.Tariffs is
--   domain/tariff-calculator.ts and Sessions.Presenter the metrics of charging-session.presenter.ts;
--   JavaScript's numbers are the interface `Doubles`. Sessions.Rows is the tables and
--   Sessions.Statements the statements of a transaction with `transition`. Each transaction of a
--   method is a definition whose name ends in `_body` or says its step: those of create in
--   Sessions.Creation, of start, stop and completeSession in Sessions.Progress, of recordMeterValue
--   in Sessions.Metering, of failSession and markRecoverableDisconnect in Sessions.Endings.
--   Sessions.Service composes them into the methods, with the payment policy and the charger of
--   Sessions.Platform between them; Sessions.Events is handleChargerEvent.
-- - Payments: apps/backend/src/payments/charging/charging-payment.policy.ts, which fills the policy
--   that Sessions takes. Payments.Charging is authorize, Payments.Settling is settle and cancel. The
--   receipts and the automatic recharge that a settlement calls at its end are parameters, of which
--   nothing is assumed.
-- - Idempotency: apps/backend/src/common/idempotency.service.ts over an interface of the Redis
--   commands.
-- - Ocpp: apps/backend/src/ocpp/ocpp16-frame.ts. JSON.parse, JSON.stringify and Buffer.byteLength are
--   parameters; the length of a text is that of JavaScript, in UTF-16 units.
--
-- Bounds and other code. The retry loop has three attempts, as in the source; the attempts left are
-- its fuel, and it never runs out. `Interference` says for each attempt whether the database aborts
-- it and what other transactions have left by the next. `between`, an argument of the methods of
-- payment intents, is what other calls do to the table between two of their statements. `IsLawful`
-- lists the laws of IEEE 754 that the properties of prices rely on.
--
-- A transaction of the charging tables happens at once; `World.others` says what other calls do
-- between two transactions of a method, and `Surroundings.others` the same for the payments. Time is
-- in milliseconds and the clock may say anything at each reading. The lock of an idempotency key has
-- no expiry of its own: the interface of the store decides what a command answers.
--
-- Not modelled: the paged list of a wallet's transactions, the reads of the charging service, the
-- realtime messages, refunds, top-ups, auto-recharge, webhooks, reconciliation, receipts, payment
-- methods and the OCPP central system, and the ranges of integer columns. Left out: HTTP, sockets,
-- authentication and the front ends, which are input and output around this core.
pub mod Prelude
pub mod Money
pub mod Database
pub mod Ledger
pub mod Wallet
pub mod Intents
pub mod Charging
pub mod Ocpp
pub mod Sessions
pub mod Payments
pub mod Idempotency
