-- ===== src/Operator.antt =====
-- The Kubernetes operator, under operator/.
pub mod Types
pub mod Controller
pub mod Runtime
pub mod Manager
pub mod Memory
pub mod DeepCopy
