-- ===== src/Crdt/GCounter.antt =====
-- crates/storage/src/crdt.rs: GCounter and PNCounter.
pub mod Laws
pub mod Sums
use lite_vision.Prelude.{ℕ, List, [], ◌∷◌, add_u64, sub_u64}
use lite_vision.Ord.{nat_ord}
use lite_vision.OrdMap.{Map, update, merge_by, values}
use lite_vision.Crdt.VersionVector.{max_clock}

pub record GCounter : Type 0 where
  pub counts : Map ℕ ℕ
  pub replica_id : ℕ

abbrev pub new : ℕ → GCounter
new replica_id = record { counts = []; replica_id = replica_id }

unfoldable pub increment : GCounter → GCounter
increment self = record self { counts = update self.replica_id 0 (λ c. add_u64 c 1) self.counts }

-- `Iterator::sum` on u64
unfoldable pub sum_from : ℕ → List ℕ → ℕ
sum_from acc [] = acc
sum_from acc (x ∷ xs) = sum_from (add_u64 acc x) xs

unfoldable pub get : GCounter → ℕ
get self = sum_from 0 (values self.counts)

unfoldable pub merge : GCounter → GCounter → GCounter
merge self other = record self { counts = merge_by max_clock self.counts other.counts }

pub record PnCounter : Type 0 where
  pub positive : GCounter
  pub negative : GCounter

abbrev pub pn_new : ℕ → PnCounter
pn_new replica_id = record { positive = new replica_id; negative = new replica_id }

unfoldable pub pn_increment : PnCounter → PnCounter
pn_increment self = record self { positive = increment self.positive }

unfoldable pub pn_decrement : PnCounter → PnCounter
pn_decrement self = record self { negative = increment self.negative }

-- `positive as i64 - negative as i64`: the i64 is its 64-bit pattern
unfoldable pub pn_get : PnCounter → ℕ
pn_get self = sub_u64 (get self.positive) (get self.negative)

unfoldable pub pn_merge : PnCounter → PnCounter → PnCounter
pn_merge self other = record {
  positive = merge self.positive other.positive;
  negative = merge self.negative other.negative;
}
