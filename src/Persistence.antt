-- ===== src/Persistence.antt =====
-- The stores of the engine (src/persistence): the table of staged orders.
pub mod PendingOrders
