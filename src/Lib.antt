-- ===== src/Lib.antt =====
-- Models and proofs for the engine of Mynyra (engine/): the broker-neutral core that takes an order
-- from intent to fill. The risk engine decides on an order; an adapter takes it to a broker and
-- answers with events; the lifecycle store follows the order through these events; the fixed-point
-- arithmetic prices fills and sizes orders; the portfolio manager keeps the cash, the positions and the
-- pending orders; the gateway stands between these and an adapter, whose events it hands to the store;
-- trigger orders protect positions; the mirror follows the positions at a broker; the frame decoder cuts
-- the byte stream of a broker into messages; the ring buffer takes items from one thread to another.
--
-- Prelude.antt and its children hold what the parts share: tests, lists, signed integers and maps.
-- Contracts.antt models engine/include/BrokerAdapterContracts.hpp: values, events and evidence.
-- Lifecycle.antt models engine/include/OrderLifecycleStore.hpp and engine/src/OrderLifecycleStore.cpp.
--   `markRiskChecked`, `markSubmitted`, `markTimeout`, `markUnknown` and `applyAcknowledgement` are
--   in Lifecycle/Store.antt, `applyExecution`, `requestCancel`, `applyCancelResult` and
--   `applyReconciliation` in Lifecycle/Fills.antt, under their names in snake case. Hash maps are
--   association lists with one entry for a key, hash sets are lists of texts.
-- Financial.antt models engine/include/FinancialMath.hpp and engine/src/FinancialMath.cpp: the 128-bit
--   product and long division in Financial/Wide.antt, the signed arithmetic in Financial/Units.antt,
--   the operations on prices, quantities and money in Financial/Values.antt. `divideWide` runs its
--   128 rounds by recursion on the bit.
-- Doubles.antt is the interface of floating-point operations, of which nothing is assumed, with
--   `Decimal64::toDouble`; Doubles/Conversions.antt has `Decimal64::fromDouble` and the constructors of
--   fixed-point values over it; Doubles/Fixed.antt is an instance for the tests.
-- Frames.antt models engine/include/providers/ctrader/CTraderFrameDecoder.hpp. Its loop over `next`
--   runs on fuel: the length of the buffer and one more, as each frame takes four bytes at least.
-- Risk.antt models engine/include/RiskEngine.hpp and engine/src/RiskEngine.cpp: `canTrade` and the
--   decision by side in Risk/Engine.antt, the decision on an exact intent in Risk/Orders.antt and
--   Risk/Openings.antt, circuit breakers and adaptive limits in Risk/Breakers.antt, the equity window
--   and synced positions in Risk/Returns.antt, snapshots in Risk/Snapshots.antt.
-- Triggers.antt models engine/include/TriggerOrderManager.hpp and engine/src/TriggerOrderManager.cpp:
--   placing and cancelling in Triggers/Manager.antt, `evaluate` in Triggers/Evaluation.antt.
-- Adapter.antt models engine/include/DeterministicBrokerAdapter.hpp and
--   engine/src/DeterministicBrokerAdapter.cpp: `submit` in Adapter/Submission.antt, connections and
--   `cancel` in Adapter/State.antt, settings, injections and `reconcile` in Adapter/Controls.antt. What
--   goes to the callbacks is a list of notices. `std::to_string` runs on fuel 20, the most digits of a
--   64-bit number.
-- Portfolio.antt models engine/include/PortfolioManager.hpp and engine/src/PortfolioManager.cpp:
--   valuation in Portfolio/Valuing.antt, `openLong` and `addToLong` in Portfolio/Opening.antt,
--   `closePosition` in Portfolio/Closing.antt, pending orders in Portfolio/Pending.antt, snapshots in
--   Portfolio/Snapshots.antt, and sequences of calls in Portfolio/Calls.antt. A call that throws gives
--   no state, and the caller keeps the one it had. The map of positions is Prelude/Dictionary.antt.
-- Gateway.antt models engine/include/BrokerGateway.hpp and engine/src/BrokerGateway.cpp over any adapter
--   of engine/include/IBrokerAdapter.hpp: `normalizeOrder` in Gateway/Normalizing.antt, the callbacks in
--   Gateway/Handlers.antt, `dispatchOrder` and `requestCancel` in Gateway/Dispatch.antt, connections,
--   instruments and reconciliation in Gateway/Controls.antt, `submitOrder` and
--   `simulateFillConfirmation` in Gateway/Legacy.antt. Gateway/Paper.antt puts the modelled adapter
--   behind it. What goes to the gateway's own callbacks is a list of events, handed out when the
--   operation is over.
-- Ring.antt models engine/include/LockFreeRingBuffer.hpp: its threads in Ring/Buffer.antt, where a load or a
--   store is one turn, and the queue that it serves in Ring/Invariant.antt.
-- Mirror.antt models `BrokerPortfolioMirror` of engine/include/IPortfolioView.hpp and
--   engine/src/IPortfolioView.cpp: `registerIntent` in Mirror/State.antt, `applyExecution` in
--   Mirror/Executions.antt, `applyReconciliation` in Mirror/Reconciling.antt.
--
-- Integers are the source's with their wrap-around or the bounds that its tests keep. A call under a
-- mutex is one step; only the ring buffer has its threads' steps apart. Not modelled: the covariance of
-- returns in the risk engine; in the gateway the account snapshots for tests, the fault settings that it
-- passes on and the registration of callbacks; `LocalPortfolioView`; the market state and OAuth
-- correlation of cTrader, its gates, the level-2 book, the commissioning, the offline replay, and the
-- event loop; allocation, regimes, strategies and analytics, which are floating-point statistics; and the
-- parts that are input and output or wiring: sockets, TLS, files, threads, command lines.
pub mod Prelude
pub mod Contracts
pub mod Lifecycle
pub mod Financial
pub mod Frames
pub mod Doubles
pub mod Risk
pub mod Triggers
pub mod Adapter
pub mod Portfolio
pub mod Gateway
pub mod Ring
pub mod Mirror
