-- ===== src/DriveId/Canonical.antt =====
-- internal/driveid/canonical.go: the configuration's drive identifiers, `type:email` with the
-- further parts that SharePoint and shared drives have.
pub mod Splitting
pub mod RoundTrip
use onedrive_go.Base.{
  ◌≡◌, Bool, true, false, not, ◌&&◌, ◌||◌, List, [], ◌∷◌, ◌++◌, Bytes, codes, ◌==◌, ◌!=◌, list_eq,
  nat_eq, if◌then◌else◌,
}
use Splitting.{colon, split_n}

abbrev pub personal : Bytes
personal = codes "personal"

abbrev pub business : Bytes
business = codes "business"

abbrev pub share_point : Bytes
share_point = codes "sharepoint"

abbrev pub shared : Bytes
shared = codes "shared"

-- `IsValidDriveType`
unfoldable pub is_valid_drive_type : Bytes → Bool
is_valid_drive_type t = t == personal || t == business || t == share_point || t == shared

-- `type CanonicalID struct`
pub record CanonicalId : Type 0 where
  pub drive_type : Bytes
  pub email : Bytes
  pub site : Bytes
  pub library : Bytes
  pub source_drive_id : Bytes
  pub source_item_id : Bytes

-- The errors of the constructors, by their cause.
pub data Error : Type 0 where
  not_type_email unknown_type too_many_parts not_four_parts missing_source missing_email : Error
  missing_site wrong_constructor zero_id : Error

pub data Result : Type 0 where
  ok : CanonicalId → Result
  err : Error → Result

abbrev pub with_type_email : Bytes → Bytes → CanonicalId
with_type_email t email = record {
  drive_type = t;
  email = email;
  site = [];
  library = [];
  source_drive_id = [];
  source_item_id = [];
}

-- `personal` and `business`: no further part.
route_plain : CanonicalId → List Bytes → Result
route_plain c [] = ok c
route_plain c (p ∷ ps) = err too_many_parts

-- `sharepoint`: a site and a library, each optional. A split has no fifth part.
route_share_point : CanonicalId → List Bytes → Result
route_share_point c [] = ok c
route_share_point c (site ∷ []) = ok (record c { site = site })
route_share_point c (site ∷ library ∷ ps) = ok (record c { site = site; library = library })

-- `shared`: both source identifiers, and neither empty.
route_shared : CanonicalId → List Bytes → Result
route_shared c (drive ∷ item ∷ []) =
    if drive == [] || item == []
    then err missing_source
    else ok (record c { source_drive_id = drive; source_item_id = item })
route_shared c _ = err not_four_parts

-- The switch over the drive type.
route : CanonicalId → List Bytes → Result
unfolding route_plain route_share_point route_shared
route c parts =
    if c.drive_type == personal || c.drive_type == business
    then route_plain c parts
    else if c.drive_type == share_point
    then route_share_point c parts
    else if c.drive_type == shared
    then route_shared c parts
    else ok c

from_parts : List Bytes → Result
unfolding route is_valid_drive_type
from_parts [] = err not_type_email
from_parts (t ∷ []) = err not_type_email
from_parts (t ∷ email ∷ parts) =
    if email == []
    then err not_type_email
    else if not (is_valid_drive_type t)
    then err unknown_type
    else route (with_type_email t email) parts

-- `NewCanonicalID`
unfoldable pub new_canonical : Bytes → Result
unfolding from_parts split_n
new_canonical raw = from_parts (split_n 3 raw)

-- `CanonicalID.String`
unfoldable pub to_string : CanonicalId → Bytes
to_string c =
    let plain = c.drive_type ++ colon ∷ c.email in
    if c.drive_type == []
    then []
    else if c.drive_type == share_point
    then plain
      ++ (if c.site == [] then [] else colon ∷ c.site)
      ++ (if c.library == [] then [] else colon ∷ c.library)
    else if c.drive_type == shared
    then plain ++ colon ∷ c.source_drive_id ++ colon ∷ c.source_item_id
    else plain

-- `Construct`
unfoldable pub construct : Bytes → Bytes → Result
unfolding new_canonical
construct t email =
    if t == share_point || t == shared
    then err wrong_constructor
    else new_canonical (t ++ colon ∷ email)

-- `ConstructSharePoint`
unfoldable pub construct_share_point : Bytes → Bytes → Bytes → Result
construct_share_point email site library =
    if email == []
    then err missing_email
    else if site == [] || library == []
    then err missing_site
    else ok (record (with_type_email share_point email) { site = site; library = library })

-- `ConstructShared`
unfoldable pub construct_shared : Bytes → Bytes → Bytes → Result
construct_shared email drive item =
    if email == []
    then err missing_email
    else if drive == [] || item == []
    then err missing_source
    else ok
        (record (with_type_email shared email) { source_drive_id = drive; source_item_id = item })

-- `CanonicalID.WithEmail`
unfoldable pub with_email : CanonicalId → Bytes → Result
unfolding construct construct_share_point construct_shared
with_email c email =
    if c.drive_type == []
    then err zero_id
    else if c.drive_type == personal || c.drive_type == business
    then construct c.drive_type email
    else if c.drive_type == share_point
    then construct_share_point email c.site c.library
    else if c.drive_type == shared
    then construct_shared email c.source_drive_id c.source_item_id
    else err unknown_type
