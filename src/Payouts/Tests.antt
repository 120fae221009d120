-- ===== src/Payouts/Tests.antt =====
-- The theorems of payouts at concrete inputs.
use ugsync.Prelude.{◌≡◌, refl, [], ◌∷◌}
use ugsync.Payouts.{
  PayoutInstruction, mtn_momo, airtel_money, sandbox, dispatch_approved, dispatch_all,
}
use ugsync.Payouts.Idempotent.{dispatched_once}

abbrev payout : PayoutInstruction
payout = record {
  payout_id = "p1";
  idempotency_key = "k1";
  provider = mtn_momo;
  payment_account_id = "acc";
  amount_ugx = 500;
  narration = "royalties";
}

abbrev retried : PayoutInstruction
retried = record payout { payout_id = "p2"; provider = airtel_money }

abbrev other : PayoutInstruction
other = record payout { idempotency_key = "k2" }

dispatched_once_example :
    let (r, s1) = dispatch_approved sandbox payout [] in
    let s2 = dispatch_all sandbox (other ∷ []) s1 in dispatch_approved sandbox retried s2 ≡ (r, s2)
dispatched_once_example = dispatched_once payout retried (other ∷ []) [] refl
