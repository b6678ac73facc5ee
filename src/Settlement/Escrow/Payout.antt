-- ===== src/Settlement/Escrow/Payout.antt =====
-- crates/truth/src/settlement.rs: what an escrow pays.
use lite_vision.Prelude.{ℕ, ◌+◌, ◌*◌, ◌≤◌, ◌<◌, ◌≡◌, true, false, List, [], ◌∷◌, arith}
use lite_vision.Settlement.Escrow.{
  JobEscrow, EscrowStatus, active, frozen, released, refunded, partially_released, release, refund,
  freeze, unfreeze, new, releaseable_amount, is_expired,
}

pub data Action : Type 0 where
  do_release do_refund do_freeze do_unfreeze : Action

-- an action and what it pays
pub act : Action → JobEscrow → JobEscrow × ℕ
act do_release e = release e
act do_refund e = refund e
act do_freeze e = (freeze e, 0)
act do_unfreeze e = (unfreeze e, 0)

-- the escrow after a sequence of actions, and the sum of what they paid
pub run : List Action → JobEscrow → JobEscrow × ℕ
run [] e = (e, 0)
run (a ∷ as') e = let (e', paid) = act a e in let (e'', rest) = run as' e' in (e'', paid + rest)

-- what the escrow may still pay
abbrev pub held_of : EscrowStatus → ℕ → ℕ
held_of active amount = amount
held_of frozen amount = amount
held_of released amount = 0
held_of refunded amount = 0
held_of partially_released amount = 0

abbrev pub held : JobEscrow → ℕ
held e = held_of e.status e.amount

act-held :
    (a : Action) (e : JobEscrow)
    → ((act a e).1 + held (act a e).0 ≡ held e) × ((act a e).0.amount ≡ e.amount)
unfolding act release refund freeze unfreeze
act-held do_release e = (ground arith, ground arith)
act-held do_refund e = (ground arith, ground arith)
act-held do_freeze e = (ground arith, ground arith)
act-held do_unfreeze e = (ground arith, ground arith)

-- Whatever the sequence of releases, refunds, freezes and thaws, what has been paid and what is
-- still held add up to what was held before.
pub run-held :
    (actions : List Action) (e : JobEscrow) → (run actions e).1 + held (run actions e).0 ≡ held e
unfolding run
run-held [] e = omega arith
run-held (a ∷ actions) e = omega (arith, run-held actions (act a e).0, act-held a e)

-- An expired escrow is still held in full, and refunding it then pays the whole amount.
pub refund_expired :
    (block : ℕ) (e : JobEscrow)
    → is_expired block e ≡ true
    → (e.deadline_block < block)
      × ((refund e).1 ≡ e.amount)
      × ((refund e).0.status ≡ refunded)
      × (is_expired block (refund e).0 ≡ false)
unfolding is_expired refund
refund_expired block e h = (ground arith, ground arith, ground arith, ground arith)

-- A reserve of at most 10000 basis points leaves a releaseable amount of amount minus reserve.
pub releaseable-new :
    (job client amount points block blocks : ℕ)
    → points ≤ 10000
    → let e = new job client amount points block blocks in
      (releaseable_amount e + e.reserved_for_verification ≡ amount)
      × (e.reserved_for_verification * 10000 ≤ amount * points)
unfolding new releaseable_amount
releaseable-new job client amount points block blocks h =
    let product : amount * points ≤ amount * 10000 = grind arith in
    (omega (arith, product), omega (arith, product))
