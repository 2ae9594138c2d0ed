-- ===== src/Tests.antt =====
-- Concrete nodes and runs over the implementation in memory, and the theorems at these inputs.
mod Data
mod FsmTests
mod DemoReadTests
mod DemoTests
mod NodeData
mod NodeTests
mod ClosedTests
mod LockTests
mod OpenTests
mod PersistTests
mod RecoveryTests
mod ReplicaTests
mod RestoreTests
mod TextTests
mod ThreeNodeTests
mod WaitTests
mod WriteTests
