-- ===== src/Matching/Index.antt =====
-- audio/fingerprint.py, `InMemoryFingerprintIndex`: registration and removal of tracks. The inverted
-- index is read by `get(key, ())`, so that a key which is missing is one with no occurrences.
use ugsync.Prelude.{
  ℕ, suc, Bool, false, not, ◌&&◌, ◌||◌, Option, none, some, List, [], ◌∷◌, ◌++◌, String, str_eq,
  strip, is_blank, keep_if, length, is_some, ◌==◌, if◌then◌else◌,
}
use ugsync.Prelude.Int.{ℤ, pos, negsuc}
use ugsync.Dict.{Dict, get, put, delete}
use ugsync.Exec.{Exec, raise_if, modify, gets, ◌>>=◌, ◌>>◌}
use ugsync.Ingest.Store.{LandmarkHash}
use ugsync.Ingest.Service.{Fingerprint}

pub record Occurrence : Type 0 where
  pub track_id : String
  pub anchor_frame : ℕ
  pub hash_index : ℕ

-- by ratio bin and delta
abbrev pub Inverted : Type 0
Inverted = ℤ → ℕ → List Occurrence

pub record FingerprintIndex : Type 0 where
  pub inverted : Inverted
  pub track_hashes : Dict (List LandmarkHash)

abbrev pub new_index : FingerprintIndex
new_index = record { inverted = λ r d. []; track_hashes = [] }

pub data IndexError : Type 0 where
  value_error key_error : IndexError

abbrev pub same_ℤ : ℤ → ℤ → Bool
same_ℤ (pos a) (pos b) = a == b
same_ℤ (negsuc a) (negsuc b) = a == b
same_ℤ _ _ = false

-- `landmark.key == (r, d)`
abbrev pub has_key : ℤ → ℕ → LandmarkHash → Bool
has_key r d l = same_ℤ l.frequency_ratio_bin r && l.delta_frames == d

abbrev pub change : LandmarkHash → (List Occurrence → List Occurrence) → Inverted → Inverted
change l f inverted r d = if has_key r d l then f (inverted r d) else inverted r d

abbrev pub is_of : String → Occurrence → Bool
is_of track_id o = str_eq o.track_id track_id

abbrev pub is_other : String → Occurrence → Bool
is_other track_id o = not (str_eq o.track_id track_id)

-- `[o for o in occurrences if o.track_id != track_id]` under the key of each landmark
unfoldable pub filter_each : (track_id : String) → List LandmarkHash → Inverted → Inverted
filter_each track_id [] inverted = inverted
filter_each track_id (l ∷ ls) inverted =
    filter_each track_id ls (change l (keep_if (is_other track_id)) inverted)

abbrev pub occurrence : (track_id : String) → (hash_index : ℕ) → LandmarkHash → Occurrence
occurrence track_id i l = record {
  track_id = track_id;
  anchor_frame = l.anchor_frame;
  hash_index = i;
}

-- Each landmark's occurrence is appended under its key.
unfoldable pub append_from :
    (track_id : String) → (hash_index : ℕ) → List LandmarkHash → Inverted → Inverted
append_from track_id i [] inverted = inverted
append_from track_id i (l ∷ ls) inverted =
    append_from track_id (suc i) ls (change l (λ os. os ++ occurrence track_id i l ∷ []) inverted)

abbrev pub drop_hashes :
    (track_id : String) → Option (List LandmarkHash) → FingerprintIndex → FingerprintIndex
drop_hashes track_id none ix = ix
drop_hashes track_id (some hashes) ix = record {
  inverted = filter_each track_id hashes ix.inverted;
  track_hashes = delete ix.track_hashes track_id;
}

unfoldable pub remove_track : (track_id : String) → FingerprintIndex → FingerprintIndex
remove_track track_id ix = drop_hashes track_id (get ix.track_hashes track_id) ix

abbrev pub insert_track :
    (track_id : String) → List LandmarkHash → FingerprintIndex → FingerprintIndex
insert_track track_id hashes ix = record {
  inverted = append_from track_id 0 hashes ix.inverted;
  track_hashes = put ix.track_hashes track_id hashes;
}

-- `add`, for an index of one schema. A track that is there is removed first; removal leaves an
-- index without the track as it is.
unfoldable pub add_track :
    (schema_id : String)
    → (track_id : String) → Fingerprint
    → Exec IndexError FingerprintIndex (Unit {0})
add_track schema_id track_id fingerprint = do
  raise_if (is_blank track_id || is_blank (strip track_id)) value_error
  raise_if (not (str_eq fingerprint.schema_id schema_id)) value_error
  known ← gets λ ix. is_some (get ix.track_hashes track_id)
  modify λ ix. if known then remove_track track_id ix else ix
  modify (insert_track track_id fingerprint.hashes)

abbrev pub or_no_hashes : Option (List LandmarkHash) → List LandmarkHash
or_no_hashes none = []
or_no_hashes (some hashes) = hashes

unfoldable pub hashes_of : String → FingerprintIndex → List LandmarkHash
hashes_of track_id ix = or_no_hashes (get ix.track_hashes track_id)

-- `track_hash_count`
unfoldable pub track_hash_count : String → FingerprintIndex → ℕ
unfolding hashes_of
track_hash_count track_id ix = length (hashes_of track_id ix)
