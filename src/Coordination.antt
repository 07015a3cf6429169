-- ===== src/Coordination.antt =====
-- pkg/coordination: the locks and barriers around every mutation of the controller.
pub mod Gate
