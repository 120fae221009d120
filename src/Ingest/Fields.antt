-- ===== src/Ingest/Fields.antt =====
-- ingestion_api/manifests.py: JSON values and the readers of single fields. The ISO parser is the
-- host's. The texts of the problems are constructors.
use Prim.Native.Char.{code}
use ugsync.Prelude.{
  ℕ, suc, Bool, true, false, ◌&&◌, ◌||◌, Option, none, some, List, [], ◌∷◌, ◌++◌, String, str_eq,
  strip, is_blank, len, leb, ◌==◌, if◌then◌else◌,
}
use ugsync.Prelude.Int.{ℤ, pos}
use ugsync.Ingest.Device.{Host, Parsed, not_iso, naive, aware, with_offset}
use ugsync.Ingest.Store.{LandmarkHash}

mutual
  pub data Json : Type 0 where
    null : Json
    bool : Bool → Json
    integer : ℤ → Json
    fraction : String → Json
    text : String → Json
    array : Items → Json
    object : Fields → Json

  pub data Items : Type 0 where
    no_items : Items
    item : Json → Items → Items

  pub data Fields : Type 0 where
    no_fields : Fields
    field : String → Json → Fields → Fields

-- `payload.get(name)`: a key that is missing reads as null. A key stands once.
unfoldable pub get_field : Fields → String → Json
get_field no_fields name = null
get_field (field key value rest) name = if str_eq key name then value else get_field rest name

unfoldable pub has_field : Fields → String → Bool
has_field no_fields name = false
has_field (field key value rest) name = str_eq key name || has_field rest name

pub data Problem : Type 0 where
  not_an_object : Problem
  required_string required_timestamp invalid_timestamp naive_timestamp : (name : String) → Problem
  not_a_uuid ended_before_start not_a_sha256 bad_byte_count bad_policy : Problem
  bad_object_key key_not_permitted key_required : Problem
  landmarks_not_array : Problem
  landmark_not_object landmark_not_integers landmark_out_of_range : (index : ℕ) → Problem

-- A value that was read, where it could be, and the problems found on the way.
abbrev pub Read : Type 0 → Type 0
Read A = Option A × List Problem

unfoldable pub require_str : Json → (name : String) → Read String
require_str (text s) name =
    if is_blank (strip s) then (none, required_string name ∷ []) else (some (strip s), [])
require_str _ name = (none, required_string name ∷ [])

abbrev pub read_moment : Parsed → (name : String) → Read ℕ
read_moment not_iso name = (none, invalid_timestamp name ∷ [])
read_moment naive name = (none, naive_timestamp name ∷ [])
read_moment (aware moment) name = (some moment, [])

unfoldable pub read_timestamp : Host → Json → (name : String) → Read ℕ
read_timestamp host (text s) name =
    if is_blank (strip s)
    then (none, required_timestamp name ∷ [])
    else read_moment (host.from_isoformat (with_offset (strip s))) name
read_timestamp host _ name = (none, required_timestamp name ∷ [])

abbrev pub in_range : ℕ → (anchor ratio delta : ℤ) → Read LandmarkHash
in_range i (pos anchor) ratio (pos (suc delta)) = (
  some (record { anchor_frame = anchor; frequency_ratio_bin = ratio; delta_frames = suc delta }),
  [],
)
in_range i _ ratio _ = (none, landmark_out_of_range i ∷ [])

-- The three fields; only integers that are no booleans will do.
abbrev pub of_integers : ℕ → (anchor ratio delta : Json) → Read LandmarkHash
of_integers i (integer anchor) (integer ratio) (integer delta) = in_range i anchor ratio delta
of_integers i _ _ _ = (none, landmark_not_integers i ∷ [])

unfoldable pub read_landmark : ℕ → Json → Read LandmarkHash
read_landmark i (object fs) =
    of_integers i (get_field fs "anchor_frame") (get_field fs "frequency_ratio_bin")
      (get_field fs "delta_frames")
read_landmark i _ = (none, landmark_not_object i ∷ [])

abbrev pub push : Option LandmarkHash → List LandmarkHash → List LandmarkHash
push none rest = rest
push (some l) rest = l ∷ rest

unfoldable pub read_items : ℕ → Items → List LandmarkHash × List Problem
read_items i no_items = ([], [])
read_items i (item x rest) =
    let (l, problems) = read_landmark i x in
    let (ls, more) = read_items (suc i) rest in (push l ls, problems ++ more)

-- `_parse_landmarks`
unfoldable pub parse_landmarks : Json → List LandmarkHash × List Problem
parse_landmarks null = ([], [])
parse_landmarks (array xs) = read_items 0 xs
parse_landmarks _ = ([], landmarks_not_array ∷ [])

abbrev pub is_hex_lower : ℕ → Bool
is_hex_lower c = (leb b'0' c && leb c b'9') || (leb b'a' c && leb c b'f')

abbrev pub is_hex : ℕ → Bool
is_hex c = is_hex_lower c || (leb b'A' c && leb c b'F')

-- `[0-9a-f]{n}` to the end
unfoldable pub all_hex_lower : String → Bool
all_hex_lower String.[] = true
all_hex_lower (String.◌∷◌ c s) = is_hex_lower (code c) && all_hex_lower s

unfoldable pub is_sha256 : String → Bool
is_sha256 s = len s == 64 && all_hex_lower s

-- a hyphen at the four places of a UUID, else a hexadecimal digit
unfoldable pub uuid_from : ℕ → String → Bool
uuid_from i String.[] = i == 36
uuid_from i (String.◌∷◌ c s) =
    (if i == 8 || i == 13 || i == 18 || i == 23 then code c == b'-' else is_hex (code c))
    && uuid_from (suc i) s

unfoldable pub is_uuid : String → Bool
unfolding uuid_from
is_uuid s = uuid_from 0 s
