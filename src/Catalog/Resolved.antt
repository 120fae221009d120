-- ===== src/Catalog/Resolved.antt =====
-- An onboarding of a document whose references resolve raises nothing but a conflict.
use ugsync.Prelude.{
  All, ◌≡◌, true, ◌||◌, Option, none, some, List, [], ◌∷◌, map, String, is_blank, is_some, contains,
  arith, Bool-cases, inl, inr,
}
use ugsync.Dict.{Dict, get, put, get-put}
use ugsync.Catalog.Documents.{
  OrganizationDocument, PartyDocument, WorkDocument, ReleaseDocument, RecordingDocument,
  SplitSheetDocument, OnboardingDocument,
}
use ugsync.Catalog.Store.{Session}
use ugsync.Catalog.Writes.{create_organization, create_party, create_work, create_release}
use ugsync.Catalog.Persist.{
  persist_organizations, organization_of, persist_parties, persist_works, persist_releases,
}
use ugsync.Catalog.References.{
  org_ids_of, party_ids_of, work_ids_of, release_ids_of, recording_ids_of, asset_pool,
}
use ugsync.Catalog.Clean.{
  Clean, clean, Clean-post, continue-Clean, found-Clean, Anyhow, create_organization-Clean,
  create_party-Clean, create_work-Clean, create_release-Clean,
}

abbrev pub IsLinked : List String → Option String → Type 0
IsLinked org_ids none = Unit
IsLinked org_ids (some ref) = contains org_ids ref ≡ true

abbrev pub AreIn : List String → List String → Type 0
AreIn ids refs = All (λ ref. contains ids ref ≡ true) refs

-- What a recording refers to is there.
abbrev pub IsResolved : (parties works releases : List String) → RecordingDocument → Type 0
IsResolved parties works releases r =
    AreIn parties (map (λ c. c.party_local_id) r.artist_credits)
    × AreIn works r.work_local_ids
    × AreIn releases r.release_local_ids

-- Each reference of the document is to one of its own entries.
pub record Resolves (d : OnboardingDocument) : Type 0 where
  pub owner : contains (org_ids_of d.organizations) d.owner_local_id ≡ true
  pub links :
      All
        (λ (p : PartyDocument). IsLinked (org_ids_of d.organizations) p.organization_local_id)
        d.parties
  pub recordings :
      All
        (IsResolved (party_ids_of d.parties) (work_ids_of d.works) (release_ids_of d.releases))
        d.recordings
  pub contributors :
      All
        (λ (w : WorkDocument).
          AreIn (party_ids_of d.parties) (map (λ c. c.party_local_id) w.contributors))
        d.works
  pub assets :
      All
        (λ (x : SplitSheetDocument).
          contains
            (asset_pool (recording_ids_of d.recordings) (work_ids_of d.works) x)
            x.asset_local_id
          ≡ true)
        d.split_sheets
  pub parties :
      All
        (λ (x : SplitSheetDocument).
          AreIn (party_ids_of d.parties) (map (λ l. l.party_local_id) x.lines))
        d.split_sheets

-- Every one of the names has an identifier.
abbrev pub Covers : List String → Dict String → Type 0
Covers names ids = (x : String) → contains names x ≡ true → is_some (get ids x) ≡ true

-- ... as has everything that had one before.
abbrev pub Extends : List String → Dict String → Dict String → Type 0
Extends names before after =
    (x : String)
    → (contains names x || is_some (get before x)) ≡ true
    → is_some (get after x) ≡ true

pub Extends-next :
    (n id : String) (names : List String) (before after : Dict String)
    → Extends names (put before n id) after
    → Extends (n ∷ names) before after
unfolding contains
Extends-next n id names before after more x h = ground (arith, more x, h, get-put before n x id)

pub Extends-end : (ids : Dict String) → Extends [] ids ids
unfolding contains
Extends-end ids x h = h

pub Extends-Covers :
    (names : List String) (ids : Dict String) → Extends names [] ids → Covers names ids
Extends-Covers names ids extends x h = extends x (ground (arith, h))

-- The owner is found among the organizations.
abbrev pub Owns : (owner_id : String) → List String → Option String → Option String → Type 0
Owns owner_id names before after =
    (contains names owner_id || is_some before) ≡ true → is_some after ≡ true

pub persist_organizations-Clean :
    (owner_id : String) (ds : List OrganizationDocument) (ids : Dict String) (owner : Option String)
    (s : Session)
    → Clean
        (λ (after, found) t.
          Extends (org_ids_of ds) ids after × Owns owner_id (org_ids_of ds) owner found)
        (persist_organizations owner_id ds ids owner s)
unfolding persist_organizations contains
persist_organizations-Clean owner_id [] ids owner s = clean (Extends-end ids, λ h. h)
persist_organizations-Clean owner_id (d ∷ ds) ids owner s =
    continue-Clean Anyhow (create_organization d s) _ (create_organization-Clean d s) λ id t u.
      Clean-post (persist_organizations-Clean owner_id ds (put ids d.local_id id) _ t)
        λ (after, found) t' (covered, owned). (
          Extends-next d.local_id id (org_ids_of ds) ids after covered,
          λ h. owned (ground (arith, h)),
        )

organization_of-Clean :
    (ids : Dict String) (names : List String) (ref : Option String) (s : Session)
    → Covers names ids
    → IsLinked names ref
    → Clean Anyhow (organization_of ids ref s)
organization_of-Clean ids names none s covers linked = clean tt
organization_of-Clean ids names (some ref) s covers linked = elim (Bool-cases (is_blank ref)) [
  | inl blank ↦ rw blank (clean tt)
  | inr given ↦ rw given (found-Clean (get ids ref) _ _ _ (covers ref linked) λ id. clean tt)
]

pub persist_parties-Clean :
    (organizations : Dict String) (names : List String) (ds : List PartyDocument)
    (ids : Dict String) (s : Session)
    → Covers names organizations
    → All (λ (p : PartyDocument). IsLinked names p.organization_local_id) ds
    → Clean
        (λ after t. Extends (party_ids_of ds) ids after)
        (persist_parties organizations ds ids s)
unfolding persist_parties
persist_parties-Clean organizations names [] ids s covers linked = clean (Extends-end ids)
persist_parties-Clean organizations names (d ∷ ds) ids s covers (link, links) =
    continue-Clean Anyhow (organization_of organizations d.organization_local_id s) _
      (organization_of-Clean organizations names d.organization_local_id s covers link)
      λ org t u.
        continue-Clean Anyhow (create_party d.party_kind d.legal_name org d.stage_or_trading_name t)
          _ (create_party-Clean d.party_kind d.legal_name org d.stage_or_trading_name t)
          λ id t u.
            Clean-post
              (persist_parties-Clean organizations names ds (put ids d.local_id id) t covers links)
              λ after t. Extends-next d.local_id id (party_ids_of ds) ids after

pub persist_works-Clean :
    (catalog_id : String) (ds : List WorkDocument) (ids : Dict String) (s : Session)
    → Clean (λ after t. Extends (work_ids_of ds) ids after) (persist_works catalog_id ds ids s)
unfolding persist_works
persist_works-Clean catalog_id [] ids s = clean (Extends-end ids)
persist_works-Clean catalog_id (d ∷ ds) ids s =
    continue-Clean Anyhow (create_work catalog_id d s) _ (create_work-Clean catalog_id d s)
      λ id t u.
        Clean-post (persist_works-Clean catalog_id ds (put ids d.local_id id) t)
          λ after t. Extends-next d.local_id id (work_ids_of ds) ids after

pub persist_releases-Clean :
    (catalog_id : String) (ds : List ReleaseDocument) (ids : Dict String) (s : Session)
    → Clean
        (λ after t. Extends (release_ids_of ds) ids after)
        (persist_releases catalog_id ds ids s)
unfolding persist_releases
persist_releases-Clean catalog_id [] ids s = clean (Extends-end ids)
persist_releases-Clean catalog_id (d ∷ ds) ids s =
    continue-Clean Anyhow (create_release catalog_id d s) _ (create_release-Clean catalog_id d s)
      λ id t u.
        Clean-post (persist_releases-Clean catalog_id ds (put ids d.local_id id) t)
          λ after t. Extends-next d.local_id id (release_ids_of ds) ids after
