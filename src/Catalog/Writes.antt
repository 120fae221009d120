-- ===== src/Catalog/Writes.antt =====
-- catalog/store.py, `InMemoryCatalogStore`: the methods that create rows under the unique rules, and
-- the links. `lower` is `str.lower`, of the host.
use ugsync.Prelude.{
  ℕ, Bool, true, false, not, ◌&&◌, Option, none, some, [], ◌∷◌, ◌++◌, String, str_eq, is_blank,
  is_some,
}
use ugsync.Prelude.Int.{ℤ}
use ugsync.Dict.{get, put, find_value}
use ugsync.Exec.{pure, raise_if, ◌>>=◌, ◌>>◌}
use ugsync.Catalog.Documents.{
  OrganizationDocument, WorkDocument, ReleaseDocument, RecordingDocument, conflict,
}
use ugsync.Catalog.Store.{
  OrganizationRow, ArtistRow, CatalogRow, WorkRow, ReleaseRow, RecordingRow, Action,
  OnboardingResult, reads, changes, new_id,
}

-- `x == y` of two values that may be `None`
abbrev pub same : Option String → Option String → Bool
same none none = true
same (some x) (some y) = str_eq x y
same _ _ = false

-- `x and ...`: a text that is neither `None` nor empty
abbrev pub is_given : Option String → Bool
is_given none = false
is_given (some s) = not (is_blank s)

-- the condition of the loop in `create_organization`
abbrev pub organization_clash : OrganizationDocument → OrganizationRow → Bool
organization_clash d row =
    is_some d.registration_number
    && same row.registration_number d.registration_number
    && str_eq row.country_code d.country_code

unfoldable pub create_organization : OrganizationDocument → Action String
create_organization d = do
  clash ← reads λ s. is_some (find_value (organization_clash d) s.organizations)
  raise_if clash conflict
  org_id ← new_id
  changes λ s. record s {
    organizations = put s.organizations org_id (record {
      id = org_id;
      legal_name = d.legal_name;
      organization_type = d.organization_type;
      trading_name = d.trading_name;
      registration_number = d.registration_number;
      country_code = d.country_code;
      contact_email = d.contact_email;
    });
  }
  pure org_id

unfoldable pub create_party :
    (party_kind legal_name : String)
    → (organization_id stage_or_trading_name : Option String) → Action String
create_party party_kind legal_name organization_id stage_or_trading_name = do
  party_id ← new_id
  changes λ s. record s {
    parties = put s.parties party_id (record {
      id = party_id;
      party_kind = party_kind;
      legal_name = legal_name;
      organization_id = organization_id;
      stage_or_trading_name = stage_or_trading_name;
    });
  }
  pure party_id

-- a new artist, with the identifier that `uuid4()` returned
abbrev pub add_artist : (party_id stage_name country_code : String) → Action String
add_artist party_id stage_name country_code = do
  artist_id ← new_id
  changes λ s. record s {
    artists = put s.artists artist_id (record {
      id = artist_id;
      party_id = party_id;
      stage_name = stage_name;
      country_code = country_code;
    });
  }
  pure artist_id

abbrev pub or_add_artist : Option ArtistRow → Action String → Action String
or_add_artist none m = m
or_add_artist (some row) m = pure row.id

abbrev pub known_as : (lower : String → String) → (party_id stage_name : String) → ArtistRow → Bool
known_as lower party_id stage_name row =
    str_eq row.party_id party_id && str_eq (lower row.stage_name) (lower stage_name)

-- The artist of the party with this stage name, whatever the case, or a new one.
unfoldable pub create_artist :
    (lower : String → String) → (party_id stage_name country_code : String) → Action String
create_artist lower party_id stage_name country_code = do
  known ← reads λ s. find_value (known_as lower party_id stage_name) s.artists
  or_add_artist known (add_artist party_id stage_name country_code)

abbrev pub catalog_clash : (owner_org_id name : String) → CatalogRow → Bool
catalog_clash owner_org_id name row =
    str_eq row.owner_organization_id owner_org_id && str_eq row.name name

unfoldable pub create_catalog : (owner_org_id name : String) → Action String
create_catalog owner_org_id name = do
  clash ← reads λ s. is_some (find_value (catalog_clash owner_org_id name) s.catalogs)
  raise_if clash conflict
  catalog_id ← new_id
  changes λ s. record s {
    catalogs = put s.catalogs catalog_id (record {
      id = catalog_id;
      owner_organization_id = owner_org_id;
      name = name;
      is_active = true;
    });
  }
  pure catalog_id

abbrev pub has_iswc : Option String → WorkRow → Bool
has_iswc x row = same row.iswc x

unfoldable pub create_work : (catalog_id : String) → WorkDocument → Action String
create_work catalog_id d = do
  clash ← reads λ s. is_given d.iswc && is_some (find_value (has_iswc d.iswc) s.works)
  raise_if clash conflict
  work_id ← new_id
  changes λ s. record s {
    works = put s.works work_id (record {
      id = work_id;
      catalog_id = catalog_id;
      title = d.title;
      alternate_titles = d.alternate_titles;
      iswc = d.iswc;
      language_code = d.language_code;
    });
  }
  pure work_id

abbrev pub has_upc : Option String → ReleaseRow → Bool
has_upc x row = same row.upc_ean x

unfoldable pub create_release : (catalog_id : String) → ReleaseDocument → Action String
create_release catalog_id d = do
  clash ← reads λ s. is_given d.upc_ean && is_some (find_value (has_upc d.upc_ean) s.releases)
  raise_if clash conflict
  release_id ← new_id
  changes λ s. record s {
    releases = put s.releases release_id (record {
      id = release_id;
      catalog_id = catalog_id;
      title = d.title;
      release_type = d.release_type;
      upc_ean = d.upc_ean;
    });
  }
  pure release_id

abbrev pub has_isrc : Option String → RecordingRow → Bool
has_isrc x row = same row.isrc x

abbrev pub has_audio : Option String → RecordingRow → Bool
has_audio x row = same row.audio_sha256 x

unfoldable pub create_recording : (catalog_id : String) → RecordingDocument → Action String
create_recording catalog_id d = do
  clash ← reads λ s. is_given d.isrc && is_some (find_value (has_isrc d.isrc) s.recordings)
  raise_if clash conflict
  enrolled ←
      reads
        λ s. is_given d.audio_sha256 && is_some (find_value (has_audio d.audio_sha256) s.recordings)
  raise_if enrolled conflict
  recording_id ← new_id
  changes λ s. record s {
    recordings = put s.recordings recording_id (record {
      id = recording_id;
      catalog_id = catalog_id;
      title = d.title;
      isrc = d.isrc;
      duration_seconds = d.duration_seconds;
      explicit = d.explicit;
      audio_sha256 = d.audio_sha256;
      fingerprint_schema_id = d.fingerprint_schema_id;
    });
  }
  pure recording_id

unfoldable pub link_recording_artist :
    (recording_id artist_id artist_role : String) → ℕ → Action (Unit {0})
link_recording_artist recording_id artist_id artist_role display_order = changes λ s. record s {
  recording_artists =
      s.recording_artists
      ++ record {
        recording_id = recording_id;
        artist_id = artist_id;
        artist_role = artist_role;
        display_order = display_order;
      }
        ∷ [];
}

unfoldable pub link_recording_work : (recording_id work_id : String) → Bool → Action (Unit {0})
link_recording_work recording_id work_id is_primary = changes λ s. record s {
  recording_works =
      s.recording_works
      ++ record { recording_id = recording_id; work_id = work_id; is_primary_work = is_primary }
        ∷ [];
}

unfoldable pub link_release_recording : (release_id recording_id : String) → ℤ → Action (Unit {0})
link_release_recording release_id recording_id track_number = changes λ s. record s {
  release_recordings =
      s.release_recordings
      ++ record {
        release_id = release_id;
        recording_id = recording_id;
        track_number = track_number;
      }
        ∷ [];
}

unfoldable pub link_work_contributor :
    (work_id party_id contributor_role : String) → ℕ → Action (Unit {0})
link_work_contributor work_id party_id contributor_role display_order = changes λ s. record s {
  work_contributors =
      s.work_contributors
      ++ record {
        work_id = work_id;
        party_id = party_id;
        contributor_role = contributor_role;
        display_order = display_order;
      }
        ∷ [];
}

-- `begin_onboarding`
unfoldable pub begin_onboarding : (idempotency_key : String) → Action (Option OnboardingResult)
begin_onboarding idempotency_key = reads λ s. get s.onboardings idempotency_key

unfoldable pub finish_onboarding : (idempotency_key : String) → OnboardingResult → Action (Unit {0})
finish_onboarding idempotency_key result =
    changes λ s. record s { onboardings = put s.onboardings idempotency_key result }
