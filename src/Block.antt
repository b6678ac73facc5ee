-- ===== src/Block.antt =====
-- crates/truth/src/block.rs: blocks. The hash of a block, over its bincode encoding, is a parameter
-- of what uses it.
use lite_vision.Prelude.{ℕ, List, []}
use lite_vision.Ledger.Transaction.{Transaction}

pub record BlockHeader : Type 0 where
  pub height : ℕ
  pub timestamp : ℕ
  pub parent_hash : ℕ
  pub state_root : ℕ
  pub receipts_root : ℕ
  pub validator_set_hash : ℕ

pub record ValidatorSignature : Type 0 where
  pub validator_id : ℕ
  pub signature : List ℕ

pub record Block : Type 0 where
  pub header : BlockHeader
  pub transactions : List Transaction
  pub signatures : List ValidatorSignature

unfoldable pub block_new : BlockHeader → List Transaction → Block
block_new header transactions = record {
  header = header;
  transactions = transactions;
  signatures = [];
}
