-- ===== src/Workspace.antt =====
-- internal/workspace: the members of a workspace, who depends on whom, and the order of `m -r`.
pub mod Graph
pub mod Kahn
pub mod Order
pub mod Whole
pub mod Filter
