-- ===== src/Validator/Set/Tests.antt =====
-- Runs of ValidatorSet of crates/truth/src/validator.rs.
use lite_vision.Prelude.{◌≡◌, ◌≤◌, ◌/◌, refl, List, [], ◌∷◌, length, false}
use lite_vision.OrdMap.{is_some}
use lite_vision.Validator
use lite_vision.Validator.{Validator, calculate_power}
use lite_vision.Validator.Set.{
  Factors, double_sign, set_new, find, get, add, remove, threshold, get_active, filter_active,
  max_validators,
}
use lite_vision.Validator.Set.Unique.{
  Call, adds, bonds, slashes, passes, sorts, run, count_id, run_holds_once,
}

-- a twentieth and a hundredth, rounded down
abbrev factors : Factors
factors = record { double_sign_of = λ n. n / 20; equivocation_of = λ n. n / 100 }

-- the validator 1 is added twice
abbrev calls : List Call
calls =
    adds (Validator.new 1 5000 1)
    ∷ (adds (Validator.new 2 9000 2)
        ∷ (adds (Validator.new 1 7000 1)
            ∷ (bonds 1 500 ∷ (slashes 2 double_sign 77 ∷ (passes 10 ∷ (sorts ∷ []))))))

one_active : threshold (run factors (adds (Validator.new 1 5000 1) ∷ []) set_new) ≡ 1
unfolding threshold get_active filter_active add find set_new Validator.new
one_active = refl

run_holds_once_example :
    (length (run factors calls set_new).validators ≤ max_validators)
    × (count_id 1 (run factors calls set_new).validators ≤ 1)
    × (is_some (get 1 (remove 1 (run factors calls set_new)).0) ≡ false)
run_holds_once_example = run_holds_once factors calls 1
