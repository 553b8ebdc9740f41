-- ===== src/Mage/Operator.antt =====
-- magefiles/operator.go: the resources of the Thanos operator. A literal of the list is a definition.
pub mod Accounts
pub mod Manager
pub mod Editors
pub mod Viewers
pub mod Bindings
pub mod Deployment
pub mod Resources
pub mod Crds
pub mod Monitors
pub mod Fetched
pub mod Written
pub mod Bound
pub mod Rules
mod Tests
