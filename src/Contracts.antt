-- ===== src/Contracts.antt =====
-- engine/include/BrokerAdapterContracts.hpp: the broker-neutral values and events.
mod Decimal
mod Enums
mod Orders
mod Account
pub use Decimal.*
pub use Enums.*
pub use Orders.*
pub use Account.*
