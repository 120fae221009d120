-- ===== src/Catalog/Referred.antt =====
-- Where no cross-reference of a document is reported, the references resolve.
use ugsync.Prelude.{
  All, ℕ, suc, ◌≡◌, true, not, List, [], ◌∷◌, String, is_blank, contains, ltb, arith,
  All-of_keep_if,
}
use ugsync.Prelude.Int.{ℤ}
use ugsync.Dict.{Dict, get}
use ugsync.Ingest.Manifest.Readers.{append-eq_nil}
use ugsync.Catalog.Documents.{
  ArtistCredit, WorkContributor, WorkDocument, RecordingDocument, SplitSheetDocument,
}
use ugsync.Catalog.References.{
  problem_if, repeats, is_unknown, credit_problems, work_ref_problems, release_ref_problems,
  recording_problems, contributor_problems, work_problems, line_parties, line_problems,
  sheet_problems, has_pair, document_total, asset_pool, is_below_one,
}
use ugsync.Catalog.Resolved.{AreIn, IsResolved}
use ugsync.Catalog.Accepted.{unreported}
use ugsync.Catalog.Named.{credit_names, contributor_names, line_names, AreGiven}

credits-AreIn :
    (ids : List String) (place : String) (cs : List ArtistCredit)
    → credit_problems ids place cs ≡ []
    → AreGiven (credit_names cs)
    → AreIn ids (credit_names cs)
unfolding credit_problems
credits-AreIn ids place [] h given = tt
credits-AreIn ids place (c ∷ cs) h (this, rest) =
    let (known, more) = append-eq_nil (problem_if (is_unknown ids c.party_local_id) _) _ h in
    (
      ground (arith, this, unreported (is_unknown ids c.party_local_id) _ known),
      credits-AreIn ids place cs more rest,
    )

contributors-AreIn :
    (ids : List String) (place : String) (cs : List WorkContributor)
    → contributor_problems ids place cs ≡ []
    → AreGiven (contributor_names cs)
    → AreIn ids (contributor_names cs)
unfolding contributor_problems
contributors-AreIn ids place [] h given = tt
contributors-AreIn ids place (c ∷ cs) h (this, rest) =
    let (known, more) = append-eq_nil (problem_if (is_unknown ids c.party_local_id) _) _ h in
    (
      ground (arith, this, unreported (is_unknown ids c.party_local_id) _ known),
      contributors-AreIn ids place cs more rest,
    )

work_refs-AreIn :
    (ids : List String) (place : String) (refs : List String)
    → work_ref_problems ids place refs ≡ []
    → AreIn ids refs
unfolding work_ref_problems
work_refs-AreIn ids place [] h = tt
work_refs-AreIn ids place (ref ∷ refs) h =
    let (known, more) = append-eq_nil (problem_if (not (contains ids ref)) _) _ h in
    (
      ground (arith, unreported (not (contains ids ref)) _ known),
      work_refs-AreIn ids place refs more,
    )

release_refs-AreIn :
    (ids : List String) (place : String) (numbers : Dict ℤ) (refs : List String)
    → release_ref_problems ids place numbers refs ≡ []
    → AreIn ids refs
unfolding release_ref_problems
release_refs-AreIn ids place numbers [] h = tt
release_refs-AreIn ids place numbers (ref ∷ refs) h =
    let (known, rest) = append-eq_nil (problem_if (not (contains ids ref)) _) _ h in
    let (positive, more) = append-eq_nil (problem_if (is_below_one (get numbers ref)) _) _ rest in
    (
      ground (arith, unreported (not (contains ids ref)) _ known),
      release_refs-AreIn ids place numbers refs more,
    )

lines-AreIn :
    (ids : List String) (place : String) (refs : List String)
    → line_problems ids place refs ≡ []
    → AreIn ids refs
unfolding line_problems
lines-AreIn ids place [] h = tt
lines-AreIn ids place (ref ∷ refs) h =
    let (known, more) = append-eq_nil (problem_if (not (contains ids ref)) _) _ h in
    (ground (arith, unreported (not (contains ids ref)) _ known), lines-AreIn ids place refs more)

pub recordings-IsResolved :
    (parties works releases : List String) (ds : List RecordingDocument)
    → recording_problems parties works releases ds ≡ []
    → All (λ (d : RecordingDocument). AreGiven (credit_names d.artist_credits)) ds
    → All (IsResolved parties works releases) ds
unfolding recording_problems
recordings-IsResolved parties works releases [] h given = tt
recordings-IsResolved parties works releases (d ∷ ds) h (this, rest) =
    let (credits, h1) = append-eq_nil (credit_problems parties _ d.artist_credits) _ h in
    let (refs, h2) = append-eq_nil (work_ref_problems works _ d.work_local_ids) _ h1 in
    let (tracks, more) =
      append-eq_nil (release_ref_problems releases _ d.release_track_numbers d.release_local_ids) _
        h2 in
    (
      (
        credits-AreIn parties _ d.artist_credits credits this,
        work_refs-AreIn works _ d.work_local_ids refs,
        release_refs-AreIn releases _ d.release_track_numbers d.release_local_ids tracks,
      ),
      recordings-IsResolved parties works releases ds more rest,
    )

pub works-AreIn :
    (parties : List String) (ds : List WorkDocument)
    → work_problems parties ds ≡ []
    → All (λ (d : WorkDocument). AreGiven (contributor_names d.contributors)) ds
    → All (λ (d : WorkDocument). AreIn parties (contributor_names d.contributors)) ds
unfolding work_problems
works-AreIn parties [] h given = tt
works-AreIn parties (d ∷ ds) h (this, rest) =
    let (known, more) = append-eq_nil (contributor_problems parties _ d.contributors) _ h in
    (contributors-AreIn parties _ d.contributors known this, works-AreIn parties ds more rest)

given_in :
    (ids names : List String)
    → AreGiven names
    → All (λ ref. not (is_blank ref) ≡ true → contains ids ref ≡ true) names
    → AreIn ids names
given_in ids [] given h = tt
given_in ids (x ∷ xs) (this, rest) (known, more) =
    (known (ground (arith, this)), given_in ids xs rest more)

pub sheets-AreIn :
    (recordings works parties : List String) (seen : List (String × String)) (i : ℕ)
    (ds : List SplitSheetDocument)
    → sheet_problems recordings works parties seen i ds ≡ []
    → All (λ (d : SplitSheetDocument). AreGiven (line_names d.lines)) ds
    → All (λ (d : SplitSheetDocument). AreIn parties (line_names d.lines)) ds
unfolding sheet_problems
sheets-AreIn recordings works parties seen i [] h given = tt
sheets-AreIn recordings works parties seen i (d ∷ ds) h (this, rest) =
    let (asset, h1) =
      append-eq_nil (problem_if (not (contains (asset_pool recordings works d) d.asset_local_id)) _)
        _ h in
    let (new, h2) =
      append-eq_nil (problem_if (has_pair seen d.right_type d.asset_local_id) _) _ h1 in
    let (known, h3) = append-eq_nil (line_problems parties _ (line_parties d.lines)) _ h2 in
    let (distinct, h4) = append-eq_nil (problem_if (repeats (line_parties d.lines)) _) _ h3 in
    let (bounded, more) = append-eq_nil (problem_if (ltb 10_000 (document_total d.lines)) _) _ h4 in
    (
      given_in parties (line_names d.lines) this (
          All-of_keep_if (λ ref. contains parties ref ≡ true) (λ ref. not (is_blank ref))
            (line_names d.lines) (lines-AreIn parties _ (line_parties d.lines) known)),
      sheets-AreIn recordings works parties ((d.right_type, d.asset_local_id) ∷ seen) (suc i) ds
          more rest,
    )

pub sheets-HasAsset :
    (recordings works parties : List String) (seen : List (String × String)) (i : ℕ)
    (ds : List SplitSheetDocument)
    → sheet_problems recordings works parties seen i ds ≡ []
    → All
        (λ (d : SplitSheetDocument).
          contains (asset_pool recordings works d) d.asset_local_id ≡ true)
        ds
unfolding sheet_problems
sheets-HasAsset recordings works parties seen i [] h = tt
sheets-HasAsset recordings works parties seen i (d ∷ ds) h =
    let (asset, h1) =
      append-eq_nil (problem_if (not (contains (asset_pool recordings works d) d.asset_local_id)) _)
        _ h in
    let (new, h2) =
      append-eq_nil (problem_if (has_pair seen d.right_type d.asset_local_id) _) _ h1 in
    let (known, h3) = append-eq_nil (line_problems parties _ (line_parties d.lines)) _ h2 in
    let (distinct, h4) = append-eq_nil (problem_if (repeats (line_parties d.lines)) _) _ h3 in
    let (bounded, more) = append-eq_nil (problem_if (ltb 10_000 (document_total d.lines)) _) _ h4 in
    (
      ground (arith, unreported _ _ asset),
      sheets-HasAsset recordings works parties ((d.right_type, d.asset_local_id) ∷ seen) (suc i) ds
          more,
    )
