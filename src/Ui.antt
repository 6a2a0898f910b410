-- ===== src/Ui.antt =====
-- crates/pb-ui: the state machines of the panels that are modelled.
pub mod History
