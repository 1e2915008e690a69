-- ===== src/Lib.antt =====
-- A verification library of polymaker, the maker bot for Polymarket's order books.
--
-- The program keeps, for each market of interest, a book for its YES and its NO token, fed by a
-- websocket; estimators of volatility, flow and toxicity; a regime machine; and, shared by all
-- markets, a state store (positions, open orders, trades in flight) and a risk manager. A change of a
-- book or a fill wakes the market's quoter, which recomputes: fair value, risk decision, regime,
-- target quotes, and the plan that the reconciler makes of the targets and the live orders. The
-- gateway carries the plan out. Background loops beat the exchange's heartbeat, reconcile the store
-- with the exchange and with the chain, and refresh books and metadata.
--
-- The parts, and the code that each models (paths from the root of the repository):
--   Domain, Config: the records of src/polymaker/domain.py and the settings of
--     src/polymaker/config.py that the other parts read; Config/Profile has the trade list and the
--     overrides.
--   Book: src/polymaker/marketdata/orderbook.py. Book/Order has the lemmas on its level lists,
--     Book/Levels and Book/Touch the theorems on updates and on the analytics.
--   Strategy/Estimators, Strategy/Regime: src/polymaker/strategy/estimators.py and regime.py.
--   Strategy/Pricing, Strategy/Quoting: src/polymaker/strategy/quoting.py, the helpers
--     (round_to_tick, _place_bid, _size_shares, _add_layers, _maybe_exit) and construct_quotes.
--   MarketData: src/polymaker/marketdata/service.py, on frames; MarketData/Parse has the parsers of
--     src/polymaker/marketdata/parse.py, over JSON values, and the handling of a text.
--   Execution/Reconcile, Execution/RateLimit: src/polymaker/execution/reconciler.py, ratelimit.py.
--   Execution/Gateway: src/polymaker/execution/gateway.py, with the client's answers as arguments;
--     Rows has the reading of order rows, Rest of positions and books, Touch the touch of a book and
--     orders that take, Balances the balances on the chain.
--   Risk: src/polymaker/risk/manager.py.
--   State/Store, State/Tracker: src/polymaker/state/store.py, tracker.py.
--   UserStream: normalize_trade of src/polymaker/userstream/parse.py; UserStream/Client has
--     normalize_order and src/polymaker/userstream/client.py, from a text to the store.
--   Catalog: src/polymaker/catalog, with Gamma for the pages and the reading of a market, Scoring,
--     Blob and Store for the tables, Scanner for a scan.
--   Merger: src/polymaker/merge.py.
--   Engine: src/polymaker/engine.py, the state and the callbacks. Engine/Quoter and Engine/Requests
--     are the two halves of _recompute_locked; Engine/Upkeep has the heartbeat and reconcile rounds
--     and the check against the chain, Engine/Refresh the refresh of metadata and of a book, and
--     Engine/Metadata the reports that the refresh is made from. Engine/Resolve is the resolution of
--     the trade list and Engine/Startup the rest of what happens before the first quote,
--     Engine/Merges the merge task, Engine/Tasks a round of the supervisor. Engine/Run puts the
--     steps together: a run of the engine is any sequence of them.
--   Prelude, Float, Dict, SortedDict, Text, Json, Attempt: what the parts share. Tests: concrete inputs.
--
-- How the code is rendered. An object is a record, and a method that changes it is a function from
-- the old record to the new one, with the clock's readings, and what the exchange or another service
-- answers, as arguments. A call of the gateway is an element of a list of requests, in order. A
-- Python dict is an association list, a set a list, and None an Option's none. An exception that a
-- caller suppresses is none; where one handler catches some exceptions and lets others through, the
-- result is an Attempt, got, caught or raised. A handler of a stream keeps what was done before an
-- exception ended it.
--
-- Numbers. A Python int is an integer. A float is an element of a type W with the operations of
-- Float; no theorem assumes more of them than its hypotheses say: IsOrdered (the comparison is a
-- total order) and IsMonotone (the operations are monotone, with the units 0 of addition and
-- subtraction, and the negative of a number that is not negative is not positive). Doubles have these laws as long as no NaN occurs and no result overflows, with
-- numbers identified that compare equal (0.0 and -0.0). Division is total here: the code's
-- ZeroDivisionError, of a zero tick size for one, is not modelled. Float/Fixed is a model of the
-- laws, fixed-point numbers with nine decimals, on which the examples run.
--
-- Third-party code. sortedcontainers.SortedDict is the interface SortedDict, with its documented
-- laws as IsSortedDict; SortedDict/Assoc is an implementation that meets them. SQLite tables are
-- dictionaries by primary key. A JSON value is data, and the conversions between texts and values
-- are the interface Wire; pydantic's, of a value for a field, are the interface Coerce. Parsing of
-- ISO dates is a parameter, `timestamp`, and so is the decimal text of a number, `show`, in paper
-- order ids and trade ids. What web3 and the relayer do with a merge is the record Chain, a page
-- of the market server is a Page, and a node is what it answers for each token.
--
-- Loops. Each loop of the code runs over a list, or down from a number of layers or of pages that the
-- code fixes, so it is structural recursion and needs no fuel. The exception is the waiting loop of
-- TokenBucket.acquire, which runs over the clock's readings and returns none while it still waits.
--
-- Not modelled: of the gateway, connecting and the calls that are only passed on; the connecting
-- and waiting of the sockets; the loading of settings (src/polymaker/config.py); the CSV export
-- of the catalog; the shutdown of the engine; and the command line, diagnostics, logging,
-- journal and alerts, which are input and output only. A record of the market server whose reading
-- raises in the middle of the metadata refresh is left out; the refresh up to it is a shorter list
-- of reports. Within the engine, a task's step is taken
-- whole, with the gateway's answers as arguments: steps may follow one another in any order, but
-- what a second task does between two awaits of one step is not modelled, but for the check
-- against the chain, which has both the engine that asks and the one that is corrected.
pub mod Prelude
pub mod Float
pub mod Attempt
pub mod Text
pub mod Json
pub mod Dict
pub mod SortedDict
pub mod Domain
pub mod Config
pub mod Book
pub mod MarketData
pub mod Strategy
pub mod Execution
pub mod Risk
pub mod State
pub mod UserStream
pub mod Catalog
pub mod Merger
pub mod Engine
pub mod Tests
