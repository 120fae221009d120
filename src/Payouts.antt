-- ===== src/Payouts.antt =====
-- integrations/mobile_money.py: payout instructions and the sandbox gateway. A gateway is an
-- interface, one submission over a state of its own.
pub mod Idempotent
mod Tests
use Prim.Native.String.{◌++◌}
use ugsync.Prelude.{
  ℕ, zero, Bool, true, false, ◌||◌, Option, none, some, List, [], ◌∷◌, String, strip, is_blank,
  if◌then◌else◌,
}
use ugsync.Prelude.Int.{ℤ, pos, negsuc}
use ugsync.Dict.{Dict, get, put}

pub data WalletProvider : Type 0 where
  mtn_momo airtel_money : WalletProvider

pub data PayoutState : Type 0 where
  accepted pending failed : PayoutState

-- `amount_ugx` counts units of some 10^-k UGX.
pub record PayoutInstruction : Type 0 where
  pub payout_id : String
  pub idempotency_key : String
  pub provider : WalletProvider
  pub payment_account_id : String
  pub amount_ugx : ℕ
  pub narration : String

abbrev pub is_positive : ℤ → Bool
is_positive (pos zero) = false
is_positive (pos _) = true
is_positive (negsuc n) = false

abbrev pub magnitude : ℤ → ℕ
magnitude (pos n) = n
magnitude (negsuc n) = zero

-- The constructor; `none` is its ValueError.
unfoldable pub new_instruction :
    (payout_id idempotency_key : String)
    → WalletProvider
    → (payment_account_id : String) → (amount_ugx : ℤ) → (narration : String)
    → Option PayoutInstruction
new_instruction payout_id idempotency_key provider payment_account_id amount_ugx narration =
    if is_blank (strip payout_id)
      || is_blank (strip idempotency_key)
      || is_blank (strip payment_account_id)
      || is_blank (strip narration)
    then none
    else if is_positive amount_ugx
    then some (record {
      payout_id = payout_id;
      idempotency_key = idempotency_key;
      provider = provider;
      payment_account_id = payment_account_id;
      amount_ugx = magnitude amount_ugx;
      narration = narration;
    })
    else none

pub record ProviderSubmission : Type 0 where
  pub state : PayoutState
  pub provider_reference : Option String
  pub message : String

-- `MobileMoneyGateway`
pub record MobileMoneyGateway (State : Type 0) : Type 0 where
  pub submit : PayoutInstruction → State → ProviderSubmission × State

abbrev pub provider_text : WalletProvider → String
provider_text mtn_momo = "mtn_momo"
provider_text airtel_money = "airtel_money"

abbrev pub sandbox_response : PayoutInstruction → ProviderSubmission
sandbox_response i = record {
  state = accepted;
  provider_reference = some ("sandbox-" ++ provider_text i.provider ++ "-" ++ i.payout_id);
  message = "Accepted by KLA-Sync sandbox; no funds moved.";
}

abbrev pub submit_found :
    PayoutInstruction
    → Option ProviderSubmission
    → Dict ProviderSubmission
    → ProviderSubmission × Dict ProviderSubmission
submit_found i (some existing) s = (existing, s)
submit_found i none s = (sandbox_response i, put s i.idempotency_key (sandbox_response i))

unfoldable pub sandbox_submit :
    PayoutInstruction → Dict ProviderSubmission → ProviderSubmission × Dict ProviderSubmission
sandbox_submit i s = submit_found i (get s i.idempotency_key) s

-- `SandboxMobileMoneyGateway`
unfoldable pub sandbox : MobileMoneyGateway (Dict ProviderSubmission)
unfolding sandbox_submit
sandbox = record { submit = sandbox_submit }

module _ {State : Type 0} (gateway : MobileMoneyGateway State) where
  unfoldable pub dispatch_approved : PayoutInstruction → State → ProviderSubmission × State
  dispatch_approved i s = gateway.submit i s

  -- Instructions dispatched one after the other: the state that they leave.
  abbrev pub dispatch_all : List PayoutInstruction → State → State
  dispatch_all [] s = s
  dispatch_all (i ∷ is) s = dispatch_all is (dispatch_approved i s).1
