-- ===== src/Llm.antt =====
-- Inference sessions, their events and scores, and the use cases over them.
pub mod Models
pub mod Model
pub mod Store
pub mod Sessions
pub mod Recording
