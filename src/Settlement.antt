-- ===== src/Settlement.antt =====
-- crates/truth/src/settlement.rs: escrows, the registry of operators, receipts, artifacts, and the
-- state that holds them. The ids and hashes `[u8; 32]` are read as numbers, and each `HashMap` is
-- an OrdMap.Map. The text of the errors (`Display`) is left out.
pub mod Escrow
pub mod Registry
pub mod Receipts
pub mod State
mod Tests

-- the cases of crates/truth/src/state.rs
pub data StateError : Type 0 where
  account_not_found insufficient_balance invalid_nonce invalid_transaction : StateError
  invalid_receiver invalid_sender operator_not_found operator_not_active : StateError
  escrow_not_found escrow_not_active insufficient_stake receipt_not_found : StateError
  outside_challenge_window : StateError
