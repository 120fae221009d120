-- ===== src/Payouts/Idempotent.antt =====
-- A gateway that is idempotent by its keys, and the sandbox as one.
use ugsync.Prelude.{
  ◌≡◌, refl, some, List, [], ◌∷◌, String, eq_refl, eq_iff, arith, Option-cases, inl, inr,
}
use ugsync.Dict.{Dict, get, get-put}
use ugsync.Payouts.{
  PayoutInstruction, ProviderSubmission, MobileMoneyGateway, sandbox_response, sandbox_submit,
  sandbox, dispatch_approved, dispatch_all,
}

-- What `MobileMoneyGateway.submit` promises: a response once given under a key stands, and is given
-- again for every instruction with that key.
pub record IsIdempotent {State : Type 0} (gateway : MobileMoneyGateway State) : Type 1 where
  pub Answers : State → String → ProviderSubmission → Type 0
  pub answered :
      (i : PayoutInstruction) (s : State)
      → Answers (gateway.submit i s).1 i.idempotency_key (gateway.submit i s).0
  pub stands :
      (i : PayoutInstruction) (s : State) (key : String) (r : ProviderSubmission)
      → Answers s key r
      → Answers (gateway.submit i s).1 key r
  pub repeated :
      (i : PayoutInstruction) (s : State) (r : ProviderSubmission)
      → Answers s i.idempotency_key r
      → gateway.submit i s ≡ (r, s)

submit-answers :
    (i : PayoutInstruction) (s : Dict ProviderSubmission)
    → get (sandbox_submit i s).1 i.idempotency_key ≡ some (sandbox_submit i s).0
unfolding sandbox_submit
submit-answers i s = elim (Option-cases (get s i.idempotency_key)) [
  | inr (r, found) ↦ rw found found
  | inl new ↦ rw new (
      ground (
        arith,
        get-put s i.idempotency_key i.idempotency_key (sandbox_response i),
        eq_refl i.idempotency_key,
      ))
]

submit-keeps :
    (i : PayoutInstruction) (s : Dict ProviderSubmission) (key : String) (r : ProviderSubmission)
    → get s key ≡ some r
    → get (sandbox_submit i s).1 key ≡ some r
unfolding sandbox_submit
submit-keeps i s key r there = elim (Option-cases (get s i.idempotency_key)) [
  | inr (other, found) ↦ rw found there
  | inl new ↦ rw new (
      ground
        (arith, get-put s i.idempotency_key key (sandbox_response i), eq_iff i.idempotency_key key))
]

pub sandbox-IsIdempotent : IsIdempotent sandbox
unfolding sandbox sandbox_submit
sandbox-IsIdempotent = record {
  Answers = λ s key r. get s key ≡ some r;
  answered = submit-answers;
  stands = submit-keeps;
  repeated = λ i s r there. rw there refl;
}

module _ {State : Type 0} (gateway : MobileMoneyGateway State)
    (idempotent : IsIdempotent gateway) where
  dispatches_keep :
      (is : List PayoutInstruction) (s : State) (key : String) (r : ProviderSubmission)
      → idempotent.Answers s key r
      → idempotent.Answers (dispatch_all gateway is s) key r
  unfolding dispatch_approved
  dispatches_keep [] s key r h = h
  dispatches_keep (i ∷ is) s key r h = dispatches_keep is _ key r (idempotent.stands i s key r h)

  dispatches_once :
      (first again : PayoutInstruction) (between : List PayoutInstruction) (s : State)
      → again.idempotency_key ≡ first.idempotency_key
      → let (r, s1) = dispatch_approved gateway first s in
        let s2 = dispatch_all gateway between s1 in dispatch_approved gateway again s2 ≡ (r, s2)
  unfolding dispatch_approved
  dispatches_once first again between s same =
      idempotent.repeated again _ _
        (rw same (dispatches_keep between _ _ _ (idempotent.answered first s)))

-- Through the sandbox gateway: after a payout was dispatched, and any others after it, an instruction
-- with the same idempotency key gets the first response, and the responses that the gateway keeps
-- stay as they are.
pub dispatched_once :
    (first again : PayoutInstruction) (between : List PayoutInstruction)
    (s : Dict ProviderSubmission)
    → again.idempotency_key ≡ first.idempotency_key
    → let (r, s1) = dispatch_approved sandbox first s in
      let s2 = dispatch_all sandbox between s1 in dispatch_approved sandbox again s2 ≡ (r, s2)
dispatched_once = dispatches_once sandbox sandbox-IsIdempotent
