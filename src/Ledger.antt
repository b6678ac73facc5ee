-- ===== src/Ledger.antt =====
-- crates/truth/src/state.rs: the ledger's state, over the settlement of crates/truth/src/settlement.rs.
-- Ids and hashes `[u8; 32]` are numbers, each `HashMap` is an OrdMap.Map, and a payload is a list of
-- bytes. The hash blake3 and the signatures of ed25519-dalek are parameters.
pub mod Transaction
pub mod Apply
mod Tests
pub mod Refusals
pub mod Payloads
pub mod Standing
use lite_vision.Prelude.{
  ℕ, Bool, true, false, Option, none, some, List, [], ◌∷◌, ◌++◌, length, add_u64, le_bytes, bytes32,
  if◌then◌else◌, not,
}
use lite_vision.OrdMap.{Map}
use lite_vision.Settlement.State
use lite_vision.Settlement.State.{SettlementState}
use lite_vision.Settlement.Registry.{OperatorRegistry}

abbrev pub state_version : ℕ
state_version = 2

-- the legacy receipt
pub record Receipt : Type 0 where
  pub id : ℕ
  pub job_id : ℕ
  pub operator_id : ℕ
  pub output_hash : ℕ
  pub compute_used : ℕ
  pub fee : ℕ
  pub settled : Bool

pub record LedgerState : Type 0 where
  pub version : ℕ
  pub height : ℕ
  pub state_root : ℕ
  pub validator_set_root : ℕ
  pub settlement : SettlementState
  pub intelligence_receipts : Map ℕ Receipt

unfoldable pub new : LedgerState
new = record {
  version = state_version;
  height = 0;
  state_root = 0;
  validator_set_root = 0;
  settlement = State.new;
  intelligence_receipts = [];
}

unfoldable pub settle : Receipt → Receipt
settle self = record self { settled = true }

unfoldable pub increment_height : LedgerState → LedgerState
increment_height self = record self { height = add_u64 self.height 1 }

unfoldable pub set_validator_set_root : ℕ → LedgerState → LedgerState
set_validator_set_root root self = record self { validator_set_root = root }

-- the keys of a map in ascending order, each as its 32 bytes
unfoldable pub key_bytes {ℓ} : {V : Type ℓ} → Map ℕ V → List ℕ
key_bytes [] = []
key_bytes ((k, _) ∷ m) = bytes32 k ++ key_bytes m

module _ (blake3 : List ℕ → ℕ) where
  unfoldable pub receipt_new : ℕ → ℕ → ℕ → ℕ → ℕ → Receipt
  receipt_new job_id operator_id output_hash compute_used fee = record {
    id = blake3 (bytes32 job_id ++ bytes32 operator_id);
    job_id = job_id;
    operator_id = operator_id;
    output_hash = output_hash;
    compute_used = compute_used;
    fee = fee;
    settled = false;
  }

  unfoldable pub root_hash : LedgerState → ℕ
  root_hash self =
      let s = self.settlement in
      blake3 (
        le_bytes 8 self.version
        ++ (le_bytes 8 self.height
            ++ (bytes32 self.validator_set_root
                ++ (le_bytes 8 (length s.job_escrows)
                    ++ (le_bytes 8 (length s.operator_registry.operators)
                        ++ (le_bytes 8 (length s.receipt_anchors)
                            ++ (key_bytes s.job_escrows
                                ++ key_bytes s.operator_registry.operators)))))))

  -- the hash that is returned is also the `state_root` of the state
  unfoldable pub compute_state_root : LedgerState → LedgerState
  compute_state_root self = record self { state_root = root_hash self }
