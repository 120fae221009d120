-- ===== src/Review/Tests.antt =====
-- Runs of the review portal, and its theorems at concrete inputs.
use ugsync.Prelude.{
  is_ascii, ◌≡◌, refl, inl, [], ◌∷◌, lstrip, rstrip, Option, none, some, String, arith, len, strip,
  contains,
}
use ugsync.Prelude.Int.{pos}
use ugsync.Dict.{get, put, find_value}
use ugsync.Exec.{ok}
use ugsync.Review.Models.{
  candidate, verified, rejected, dismissed, PortalUser, DetectionEvidence, Dispute, ReviewDecision,
  DisputeResolution, forbidden,
}
use ugsync.Review.Store.{
  ReviewStore, CandidateInput, DetectionRow, new_store, record_candidate, candidate_row,
  get_detection, to_evidence, open_dispute_of,
}
use ugsync.Review.Writes.{
  set_detection_status, create_dispute, get_dispute, resolve_dispute, write_audit, reviewed,
  new_dispute, resolved,
}
use ugsync.Review.Guards.{Supply, require_role, require_authenticated, require_note}
use ugsync.Review.Service.{
  decide, decide_in, open_dispute, open_dispute_in, service_resolve_dispute, resolve_dispute_in,
  require_reason,
}
use ugsync.Review.Accounts.{
  search_token, PortalAccount, to_user, register_account, registered, split_once, lowers_to,
  resolve_header, Resolves, resolve_header-Resolves,
}
use ugsync.Review.Consistent.{IsConsistent, is_disputed}
use ugsync.Review.Run.{Request, submit, review, challenge, after, step, Reach, here, next}
use ugsync.Review.Reachable.{Reach-IsConsistent, has_dispute_exact}
use ugsync.Review.Lifecycle.{Follows, status_moves, final_stays}
use ugsync.Review.Audit.{Audited, requests-Audited, decide_accepts}
use ugsync.Review.Atomic.{decide_error_unchanged}
use ugsync.Review.Disputes.{dispute_decides_status}

abbrev play : CandidateInput
play = record {
  source_id = "s1";
  source_code = "fm-91";
  recording_id = "rec";
  capture_chunk_id = "chunk";
  started_at = 1_000_000;
  ended_at = 31_000_000;
  matcher_version = "m";
  fingerprint_schema_id = "f";
  matched_hash_count = 12;
  match_confidence = 5000;
  tempo_scale = none;
  offset_micros = pos 0;
}

abbrev reviewer : PortalUser
reviewer = record { user_id = "rita"; role = "reviewer"; display_name = ""; party_id = none }

abbrev viewer : PortalUser
viewer = record { user_id = "vic"; role = "viewer"; display_name = ""; party_id = some "p" }

abbrev finance : PortalUser
finance = record { user_id = "fay"; role = "finance_reviewer"; display_name = ""; party_id = none }

abbrev supply : Supply
supply = record { dispute_id = "x1"; audit_id = "a1"; now = 5; later = 6 }

abbrev long_note : Option String
long_note = some "  checked against the recording  "

abbrev one_candidate : ReviewStore
one_candidate = after (submit "d1" play) new_store

abbrev row : DetectionRow
row = candidate_row "d1" play

one_candidate-Reach : Reach new_store one_candidate
unfolding get
one_candidate-Reach = next here (step (submit "d1" play) new_store refl)

abbrev approve : Request
approve = review supply reviewer "d1" "verified" long_note none

abbrev dispute : Request
dispute = challenge supply viewer "d1" "duplicate" long_note none

approve_verifies :
    (get (after approve one_candidate).detections "d1")
    ≡ some (reviewed row verified "rita" 5 "checked against the recording")
unfolding after record_candidate decide require_role require_note decide_in get_detection
    to_evidence set_detection_status write_audit get put find_value open_dispute_of contains len
    strip
approve_verifies = refl

Reach-IsConsistent_example : IsConsistent one_candidate
Reach-IsConsistent_example = Reach-IsConsistent one_candidate-Reach

has_dispute_exact_example : (to_evidence one_candidate row).has_dispute ≡ is_disputed candidate
unfolding get_detection to_evidence after record_candidate get put
has_dispute_exact_example =
    has_dispute_exact "d1" (to_evidence one_candidate row) one_candidate-Reach refl

status_moves_example : Follows approve row (get (after approve one_candidate).detections "d1")
unfolding after record_candidate get put
status_moves_example = status_moves approve "d1" row one_candidate-Reach tt refl

requests-Audited_example : Audited reviewer one_candidate (after approve one_candidate)
requests-Audited_example = requests-Audited approve one_candidate reviewer refl

decide_accepts_example :
    (evidence : DetectionEvidence) × ((decide supply reviewer "d1" "verified" long_note none
        one_candidate).0
      ≡ ok (some evidence))
    × (evidence.status ≡ verified)
    × (evidence.reviewed_by ≡ some "rita")
    × (evidence.review_note ≡ some "checked against the recording")
unfolding after record_candidate get put contains len strip
decide_accepts_example =
    decide_accepts supply reviewer "d1" "verified" "  checked against the recording  "
      ReviewDecision.verified none row one_candidate refl refl refl (omega arith) (omega arith) refl
      refl

-- A rejected detection, and one request more.
abbrev reject : Request
reject = review supply reviewer "d1" "rejected" long_note none

abbrev rejected_row : DetectionRow
rejected_row = reviewed row rejected "rita" 5 "checked against the recording"

final_stays_example :
    (row' : DetectionRow) × (get (after dispute (after reject one_candidate)).detections "d1"
      ≡ some row')
    × (row'.status ≡ rejected)
unfolding after record_candidate decide require_role require_note decide_in get_detection
    to_evidence set_detection_status write_audit get put find_value open_dispute_of contains len
    strip
final_stays_example =
    final_stays "d1" rejected_row (next one_candidate-Reach (step reject one_candidate tt))
      (next here (step dispute (after reject one_candidate) refl)) refl (inl refl)

-- A viewer disputes a candidate, and a finance reviewer dismisses the dispute.
abbrev disputed_store : ReviewStore
disputed_store = (open_dispute supply viewer "d1" "duplicate" long_note none one_candidate).1

abbrev closed_store : ReviewStore
closed_store =
    (service_resolve_dispute supply finance "x1" "dismissed" long_note none disputed_store).1

abbrev opened : Dispute
opened = new_dispute "x1" "d1" "vic" (some "p") "duplicate" "checked against the recording" 5

dispute_decides_status_example :
    (end : DetectionRow) × (get closed_store.detections "d1" ≡ some end)
    × (end.status ≡ verified)
    × (end.reviewed_by ≡ some "fay")
unfolding after record_candidate open_dispute open_dispute_in require_authenticated require_reason
    require_role require_note service_resolve_dispute resolve_dispute_in resolve_dispute
    create_dispute get_dispute get_detection to_evidence set_detection_status write_audit get put
    find_value open_dispute_of contains len strip
dispute_decides_status_example =
    dispute_decides_status supply supply viewer finance "d1" "duplicate" "dismissed" long_note
      long_note none none DisputeResolution.dismissed one_candidate disputed_store closed_store
      {opened = some opened}
      {closed = resolved opened dismissed "fay" "checked against the recording" 5} refl refl refl

decide_error_unchanged_example :
    (decide supply viewer "d1" "verified" long_note none one_candidate).1 ≡ one_candidate
unfolding decide require_role contains
decide_error_unchanged_example =
    decide_error_unchanged supply viewer one_candidate {e = forbidden} "d1" "verified" long_note
      none refl

abbrev ann_account : PortalAccount
ann_account = record {
  user_id = "ann";
  role = "reviewer";
  token = "t0k";
  display_name = "Ann";
  party_id = none;
}

ann_resolves :
    resolve_header (registered (ann_account ∷ []) []) (some "BEARER  t0k ")
    ≡ ok (to_user ann_account)
unfolding resolve_header register_account split_once lowers_to search_token is_ascii strip lstrip
    rstrip put contains
ann_resolves = refl

resolve_header-Resolves_example :
    Resolves (registered (ann_account ∷ []) []) (some "BEARER  t0k ") (to_user ann_account)
resolve_header-Resolves_example =
    resolve_header-Resolves (ann_account ∷ []) (some "BEARER  t0k ") (to_user ann_account)
      ann_resolves
