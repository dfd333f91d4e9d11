-- ===== src/Orderflow.antt =====
-- internal/orderflow: submitting, cancelling and refreshing orders, and the paged queries.
pub mod Ids
pub mod World
pub mod Requests
pub mod Archived
pub mod Preflight
pub mod Submit
pub mod Batch
pub mod Cancel
pub mod Refresh
pub mod AutoRefresh
pub mod Queries
pub mod Publications
pub mod Safety
