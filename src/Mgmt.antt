-- ===== src/Mgmt.antt =====
-- services/mgmt-api/app, the management API.
pub mod Data
pub mod Catalogue
pub mod Layouts
pub mod Requests
pub mod Rows
pub mod Switching
pub mod Consistency
pub mod Invariant
pub mod Reachable
pub mod Events
pub mod Ingested
pub mod Proxied
pub mod Log
pub mod Access
pub mod Outcomes
pub mod Tokens
pub mod Granted
pub mod Guards
pub mod Users
pub mod Elements
pub mod Claimed
pub mod Verified
pub mod Proxies
pub mod Imported
mod Tests
mod UserTests
