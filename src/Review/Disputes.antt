-- ===== src/Review/Disputes.antt =====
-- A dispute from its opening to its resolution, across two requests.
use ugsync.Prelude.{◌≡◌, Option, some, String, arith, eq_refl, Option-cases, inl, inr}
use ugsync.Dict.{get, get-put}
use ugsync.Exec.{ok}
use ugsync.Review.Models.{PortalUser, DisputeResolution, Dispute}
use ugsync.Review.Store.{DetectionRow, ReviewStore}
use ugsync.Review.Guards.{Supply}
use ugsync.Review.Service.{
  open_dispute, service_resolve_dispute, parse_resolution, resulting_status,
}
use ugsync.Review.Requests.{open_dispute-OpenOk, resolve-ResolveOk}

-- Where a user opens a dispute on a detection and a user resolves that dispute next, the
-- detection is rejected if the dispute is upheld and verified if it is dismissed, whether or not a
-- reviewer had verified it before.
pub dispute_decides_status :
    (supply supply' : Supply) (user resolver : PortalUser) (id reason resolution : String)
    (detail note request_id request_id' : Option String) (choice : DisputeResolution)
    (s s1 s2 : ReviewStore) {opened : Option Dispute} {closed : Dispute}
    → open_dispute supply user id reason detail request_id s ≡ (ok opened, s1)
    → service_resolve_dispute supply' resolver supply.dispute_id resolution note request_id' s1
      ≡ (ok closed, s2)
    → parse_resolution resolution ≡ some choice
    → (row : DetectionRow) × (get s2.detections id ≡ some row)
      × (row.status ≡ resulting_status choice)
      × (row.reviewed_by ≡ some resolver.user_id)
dispute_decides_status supply supply' user resolver id reason resolution detail note rid rid' choice
      s s1 s2 {opened} {closed} h1 h2 parsed =
    let o = open_dispute-OpenOk supply user id reason detail rid s s1 {r = opened} h1 in
    let c =
      resolve-ResolveOk supply' resolver supply.dispute_id resolution note rid' s1 s2 {r = closed}
        h2 in
    let same : c.done.dispute.detection_event_id ≡ id =
      grind (arith, o.done.disputes, c.done.found, get-put, eq_refl) in
    let chosen : c.choice ≡ choice = ground (arith, c.chosen) in
    elim (Option-cases (get s2.detections id)) [
      | inl missing ↦
          absurd (grind (arith, c.done.detections, o.done.detections, same, get-put, eq_refl))
      | inr (row, found) ↦ (
        row,
        found,
        grind (arith, c.done.detections, o.done.detections, same, chosen, found, get-put, eq_refl),
        grind (arith, c.done.detections, o.done.detections, same, found, get-put, eq_refl),
      )
    ]
