-- ===== src/Kernel/Laws.antt =====
-- What the classifier and the description of an error promise.
pub mod Classify
pub mod Described
