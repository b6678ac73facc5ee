-- ===== src/Validator/Jailing.antt =====
-- crates/truth/src/validator.rs: the power of a validator, and the time that it is jailed.
use lite_vision.Prelude.{ℕ, ◌+◌, ◌-◌, ◌/◌, ◌<◌, ◌≡◌, u64_mod, if◌then◌else◌, ltb, arith}
use lite_vision.Validator.{
  Validator, active, jailed, calculate_power, new, update_stake, add_delegation, remove_delegation,
  total_stake, jail, unjail,
}

-- the power is the total stake in thousands
abbrev pub IsPowered : Validator → Type 0
IsPowered v = v.power ≡ total_stake v / 1000

-- Every change of the stakes of a validator sets its power to its total stake in thousands, and a
-- new validator has it so.
pub power_follows :
    (id pubkey amount epoch : ℕ) (v : Validator)
    → amount < u64_mod
    → IsPowered v
    → IsPowered (new id amount pubkey)
      × IsPowered (update_stake amount v)
      × IsPowered (add_delegation amount v)
      × IsPowered (remove_delegation amount v).0
      × IsPowered (jail epoch amount v)
unfolding calculate_power new update_stake add_delegation remove_delegation total_stake jail
power_follows id pubkey amount epoch v small h =
    (omega arith, ground arith, ground arith, ground arith, ground arith)

-- A validator that is jailed in an epoch, the tenth after which fits in a u64, is refused its
-- return in each of the next nine epochs and gets it from the tenth on; its stake is reduced by
-- the amount slashed.
pub unjail-jail :
    (epoch now amount : ℕ) (v : Validator)
    → epoch + 10 < u64_mod
    → ((unjail now (jail epoch amount v)).0.status
        ≡ (if ltb now (epoch + 10) then jailed else active))
      × ((unjail now (jail epoch amount v)).0.stake ≡ v.stake - amount)
unfolding unjail jail
unjail-jail epoch now amount v room = (ground arith, ground arith)
