-- ===== src/Mage.antt =====
-- magefiles/: the manifests of the stage and the local environment.
pub mod Value
pub mod Paths
pub mod Params
pub mod Library
pub mod Objects
pub mod Heap
pub mod Cr
pub mod OperatorCr
pub mod Cache
pub mod Secrets
pub mod Gateway
pub mod TemplateYaml
pub mod Alertmanager
pub mod Operator
mod Tests
