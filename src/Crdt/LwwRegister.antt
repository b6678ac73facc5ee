-- ===== src/Crdt/LwwRegister.antt =====
-- crates/storage/src/crdt.rs: LWWRegister, the register in which the last write wins.
use lite_vision.Prelude.{
  ℕ, ◌≤◌, ◌≡◌, ◌&&◌, ◌||◌, Option, none, some, ltb, ◌==◌, if◌then◌else◌, arith,
}

pub record LwwRegister {ℓ} (T : Type ℓ) : Type ℓ where
  pub value : Option T
  pub timestamp : ℕ
  pub replica_id : ℕ

module _ {ℓ} {T : Type ℓ} where
  pub new : ℕ → LwwRegister T
  new replica_id = record { value = none; timestamp = 0; replica_id = replica_id }

  -- the second test compares the register's own number with itself, as the source does
  pub set : T → ℕ → LwwRegister T → LwwRegister T
  set value timestamp self =
      if ltb self.timestamp timestamp
        || (timestamp == self.timestamp && ltb self.replica_id self.replica_id)
      then record self { value = some value; timestamp = timestamp }
      else self

  pub get : LwwRegister T → Option T
  get self = self.value

  pub merge : LwwRegister T → LwwRegister T → LwwRegister T
  merge self other =
      if ltb self.timestamp other.timestamp
        || (other.timestamp == self.timestamp && ltb self.replica_id other.replica_id)
      then record {
        value = other.value;
        timestamp = other.timestamp;
        replica_id = other.replica_id;
      }
      else self

  -- A write is read back exactly if its timestamp is later than that of the register; the
  -- timestamp does not fall and the replica stays.
  pub get-set :
      (v : T) (t : ℕ) (r : LwwRegister T)
      → (get (set v t r) ≡ (if ltb r.timestamp t then some v else get r))
        × (t ≤ (set v t r).timestamp)
        × ((set v t r).replica_id ≡ r.replica_id)
  unfolding set get
  get-set v t r = (ground arith, ground arith, ground arith)

  -- Merging registers is associative and idempotent, and commutative where equal timestamp and
  -- replica mean equal value.
  pub register_merge_laws :
      (a b c : LwwRegister T)
      → (a.timestamp ≡ b.timestamp → a.replica_id ≡ b.replica_id → a.value ≡ b.value)
      → (merge a b ≡ merge b a) × (merge (merge a b) c ≡ merge a (merge b c)) × (merge a a ≡ a)
  unfolding merge
  register_merge_laws a b c agree = (ground arith, ground arith, ground arith)
