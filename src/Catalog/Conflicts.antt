-- ===== src/Catalog/Conflicts.antt =====
-- An onboarding of a document whose references resolve raises nothing but a conflict, and what an
-- onboarding of a payload raises.
use ugsync.Prelude.{
  All, All-imp, ◌≡◌, ◌⊎◌, refl, true, ◌||◌, Option, none, some, List, [], ◌∷◌, String, is_blank,
  contains, eq_refl, arith, Bool-cases, Option-cases, inl, inr,
}
use ugsync.Dict.{get}
use ugsync.Exec.{Result, err, commit}
use ugsync.Catalog.Documents.{
  WorkDocument, OnboardingDocument, CatalogError, conflict, validation, overflow_error,
}
use ugsync.Catalog.Store.{Session, CatalogStore, new_id}
use ugsync.Catalog.Writes.{create_catalog, begin_onboarding, finish_onboarding}
use ugsync.Catalog.Sheets.{write_catalog_audit}
use ugsync.Catalog.Persist.{
  persist_organizations, persist_parties, persist_works, persist_releases, persist_recordings,
  persist_all_contributors, persist_sheets, persist,
}
use ugsync.Catalog.References.{
  org_ids_of, party_ids_of, work_ids_of, release_ids_of, ParsedDocument, accepted, refused,
  overflowed, parse_onboarding_document,
}
use ugsync.Catalog.Service.{
  Host, Call, onboard, onboard_new, onboard_once, onboard_payload, onboard_parsed,
}
use ugsync.Ingest.Fields.{Json}
use ugsync.Catalog.Checks.{Reader}
use ugsync.Catalog.Valid.{accepted-Resolves}
use ugsync.Catalog.Clean.{
  Clean, clean, conflicted, continue-Clean, found-Clean, Anyhow, create_catalog-Clean,
}
use ugsync.Catalog.Resolved.{
  Resolves, Extends, Owns, Extends-Covers, persist_organizations-Clean, persist_parties-Clean,
  persist_works-Clean, persist_releases-Clean,
}
use ugsync.Catalog.Linked.{
  persist_recordings-Clean, persist_all_contributors-Clean, persist_sheets-Clean,
}

module _ {A : Type 0} (P Q : A → Type 0) where
  All-both : (xs : List A) → All P xs → All Q xs → All (λ x. P x × Q x) xs
  All-both [] ps qs = tt
  All-both (x ∷ xs) (p, ps) (q, qs) = ((p, q), All-both xs ps qs)

-- A work's own identifier is among those of the works.
named : (ds : List WorkDocument) → All (λ w. contains (work_ids_of ds) w.local_id ≡ true) ds
unfolding contains
named [] = tt
named (d ∷ ds) =
    (ground (arith, eq_refl d.local_id), All-imp (λ w h. ground (arith, h)) ds (named ds))

pub persist-Clean :
    (lower : String → String) (d : OnboardingDocument) (s : Session)
    → Resolves d
    → Clean Anyhow (persist lower d s)
unfolding persist
persist-Clean lower d s resolves =
    continue-Clean
      (λ (ids, owner) t.
        Extends (org_ids_of d.organizations) [] ids
        × Owns d.owner_local_id (org_ids_of d.organizations) none owner)
      (persist_organizations d.owner_local_id d.organizations [] none s) _
      (persist_organizations-Clean d.owner_local_id d.organizations [] none s)
      λ (organizations, owner) t (covered, owned).
        found-Clean owner _ _ t (owned (ground (arith, resolves.owner))) λ owner_pk.
          continue-Clean Anyhow (create_catalog owner_pk d.catalog_name t) _
            (create_catalog-Clean owner_pk d.catalog_name t)
            λ catalog_id t u.
              continue-Clean (λ ids t. Extends (party_ids_of d.parties) [] ids)
                (persist_parties organizations d.parties [] t) _
                (persist_parties-Clean organizations (org_ids_of d.organizations) d.parties [] t
                  (Extends-Covers _ organizations covered) resolves.links)
                λ parties t has_parties.
                  continue-Clean (λ ids t. Extends (work_ids_of d.works) [] ids)
                    (persist_works catalog_id d.works [] t) _
                    (persist_works-Clean catalog_id d.works [] t)
                    λ works t has_works.
                      continue-Clean (λ ids t. Extends (release_ids_of d.releases) [] ids)
                        (persist_releases catalog_id d.releases [] t) _
                        (persist_releases-Clean catalog_id d.releases [] t)
                        λ releases t has_releases.
                          let to_parties = Extends-Covers _ parties has_parties in
                          let to_works = Extends-Covers _ works has_works in
                          let to_releases = Extends-Covers _ releases has_releases in
                          continue-Clean Anyhow
                            (persist_recordings lower catalog_id parties works releases d.recordings
                              [] [] t)
                            _
                            (persist_recordings-Clean lower catalog_id parties works releases _ _ _
                              to_parties to_works to_releases d.recordings [] [] t
                              resolves.recordings)
                            λ recordings t u.
                              continue-Clean Anyhow
                                (persist_all_contributors parties works d.works t) _
                                (persist_all_contributors-Clean lower catalog_id parties works
                                  releases _ _ _ to_parties to_works to_releases d.works t
                                  (All-both _ _ d.works (named d.works) resolves.contributors))
                                λ v t u.
                                  continue-Clean Anyhow
                                    (persist_sheets catalog_id parties works recordings
                                      d.split_sheets [] t)
                                    _
                                    (persist_sheets-Clean lower parties (party_ids_of d.parties)
                                      to_parties catalog_id works recordings d.split_sheets [] t
                                      resolves.parties)
                                    λ sheets t u. clean tt

module _ (host : Host) (call : Call) where
  onboard_new-Clean :
      (d : OnboardingDocument) (s : Session) → Resolves d → Clean Anyhow (onboard_new host call d s)
  unfolding onboard_new write_catalog_audit new_id
  onboard_new-Clean d s resolves =
      continue-Clean Anyhow (persist host.lower d s) _ (persist-Clean host.lower d s resolves)
        λ c t u. clean tt

  onboard_once-Clean :
      (d : OnboardingDocument) (key : String) (s : Session)
      → Resolves d
      → Clean Anyhow (onboard_once host call d key s)
  unfolding onboard_once begin_onboarding finish_onboarding
  onboard_once-Clean d key s resolves = elim (Option-cases (get s.store.onboardings key)) [
    | inr (result, known) ↦ rw known (clean tt)
    | inl new ↦ rw new (
        continue-Clean Anyhow (onboard_new host call d s) _ (onboard_new-Clean d s resolves)
          λ r t u. clean tt)
  ]

  -- In a transaction the error is that of the body.
  session-error :
      {A : Type 0} (s : CatalogStore) (p : Result CatalogError A × Session) {e : CatalogError}
      {s' : CatalogStore}
      → Clean Anyhow p
      → commit s (p.0, p.1.store) ≡ (err e, s')
      → e ≡ conflict
  session-error s (_, _) (clean h) raised = absurd (ground arith)
  session-error s (_, _) conflicted raised = ground arith

  -- The key, where there is one, is a UUID.
  abbrev pub IsFormed : Option String → Type 0
  IsFormed none = Unit
  IsFormed (some key) = (is_blank key || host.is_uuid key) ≡ true

  pub onboard_conflicts :
      (d : OnboardingDocument) (key : Option String) (s : CatalogStore) {e : CatalogError}
      {s' : CatalogStore}
      → Resolves d
      → IsFormed key
      → onboard host call (some d) key s ≡ (err e, s')
      → e ≡ conflict
  unfolding onboard
  onboard_conflicts d none s resolves formed raised =
      session-error s (onboard_new host call d _) (onboard_new-Clean d _ resolves) raised
  onboard_conflicts d (some key) s resolves formed raised = elim (Bool-cases (is_blank key)) [
    | inl blank ↦
        session-error s (onboard_new host call d _) (onboard_new-Clean d _ resolves)
          (rw blank at raised)
    | inr given ↦
        let accepted : host.is_uuid key ≡ true = ground (arith, given, formed) in
        session-error s (onboard_once host call d key _) (onboard_once-Clean d key _ resolves)
          (rw (given, accepted) at raised)
  ]

-- The errors that an onboarding may raise, by what came of the payload: OverflowError where a
-- duration has overflowed, a validation error where problems were found, and of a document a conflict
-- or, for a malformed key, a validation error.
abbrev pub Refuses : ParsedDocument → CatalogError → Type 0
Refuses overflowed e = e ≡ overflow_error
Refuses (refused problems) e = e ≡ validation
Refuses (accepted d) e = (e ≡ validation) ⊎ (e ≡ conflict)

payload_error :
    (host : Host) (call : Call) (parsed : ParsedDocument) (key : Option String) (s : CatalogStore)
    {e : CatalogError} {s' : CatalogStore}
    → ((d : OnboardingDocument) → parsed ≡ accepted d → Resolves d)
    → onboard_parsed host call parsed key s ≡ (err e, s')
    → Refuses parsed e
unfolding onboard
payload_error host call (refused problems) key s resolves raised = ground arith
payload_error host call overflowed key s resolves raised = ground arith
payload_error host call (accepted d) none s resolves raised =
    inr (onboard_conflicts host call d none s (resolves d refl) tt raised)
payload_error host call (accepted d) (some key) s resolves raised =
    elim (Bool-cases (is_blank key || host.is_uuid key)) [
      | inl formed ↦
          inr (onboard_conflicts host call d (some key) s (resolves d refl) formed raised)
      | inr malformed ↦ inl (ground (arith, malformed, raised))
    ]

-- A payload, whatever it is, is onboarded, or the call raises as follows: OverflowError where its
-- parse ended in one, a validation error where the parse found problems, and for an accepted document
-- a validation error or a conflict. No lookup of an identifier fails on the way.
pub payload_raises :
    (reader : Reader) (host : Host) (call : Call) (payload : Json) (key : Option String)
    (s : CatalogStore) {e : CatalogError} {s' : CatalogStore}
    → onboard_payload reader host call payload key s ≡ (err e, s')
    → Refuses (parse_onboarding_document reader payload) e
unfolding onboard_payload
payload_raises reader host call payload key s raised =
    payload_error host call (parse_onboarding_document reader payload) key s
      (λ d parsed. accepted-Resolves reader payload parsed) raised
