-- ===== src/Review/Atomic.antt =====
-- A request of the review portal that raises leaves the store as it was, wherever it raised.
use ugsync.Prelude.{◌≡◌, Option, none, some, String, arith}
use ugsync.Exec.{err}
use ugsync.Review.Models.{PortalUser, ReviewError}
use ugsync.Review.Store.{ReviewStore}
use ugsync.Review.Guards.{Supply, require_role, require_authenticated, require_note}
use ugsync.Review.Service.{decide, open_dispute, service_resolve_dispute, require_reason}

module _ (supply : Supply) (user : PortalUser) (s : ReviewStore) {e : ReviewError}
    {s' : ReviewStore} where
  pub decide_error_unchanged :
      (detection_id decision : String) (note request_id : Option String)
      → decide supply user detection_id decision note request_id s ≡ (err e, s')
      → s' ≡ s
  unfolding decide require_role require_note
  decide_error_unchanged detection_id decision none request_id h = ground arith
  decide_error_unchanged detection_id decision (some note) request_id h = ground arith

  pub open_dispute_error_unchanged :
      (detection_id reason : String) (detail request_id : Option String)
      → open_dispute supply user detection_id reason detail request_id s ≡ (err e, s')
      → s' ≡ s
  unfolding open_dispute require_authenticated require_note require_reason
  open_dispute_error_unchanged detection_id reason none request_id h = ground arith
  open_dispute_error_unchanged detection_id reason (some detail) request_id h = ground arith

  pub resolve_error_unchanged :
      (dispute_id resolution : String) (note request_id : Option String)
      → service_resolve_dispute supply user dispute_id resolution note request_id s ≡ (err e, s')
      → s' ≡ s
  unfolding service_resolve_dispute require_role require_note
  resolve_error_unchanged dispute_id resolution none request_id h = ground arith
  resolve_error_unchanged dispute_id resolution (some note) request_id h = ground arith
