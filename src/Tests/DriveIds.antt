-- ===== src/Tests/DriveIds.antt =====
-- internal/driveid at concrete identifiers.
use onedrive_go.Base.{
  ◌≡◌, inl, refl, true, [], ◌∷◌, ◌++◌, some, codes, list_eq, nat_eq, arith, ◌≤◌, length,
}
use onedrive_go.DriveId.{DriveId, new, equal, scan, sql_value}
use onedrive_go.DriveId.Laws.{length-new, scan-sql_value}
use onedrive_go.DriveId.Canonical.{
  CanonicalId, ok, share_point, new_canonical, to_string, with_type_email,
}
use onedrive_go.DriveId.Canonical.RoundTrip.{new_canonical-to_string, library_becomes_site}
use onedrive_go.DriveId.Canonical.Splitting.{colon}

new_pads : (new (codes "B1A")).value ≡ codes "0000000000000b1a"
unfolding new
new_pads = refl

length-new_example : 16 ≤ length (new (codes "B1A")).value
length-new_example = length-new (codes "B1A") (λ e. cc e)

scan-sql_value_example :
    (i : DriveId) × (scan (sql_value (new (codes "0"))) ≡ some i)
    × (equal i (new (codes "0")) ≡ true)
scan-sql_value_example = scan-sql_value (codes "0")

abbrev site_drive : CanonicalId
site_drive = record (with_type_email share_point (codes "a@b.c")) {
  site = codes "s";
  library = codes "l";
}

parse_site_drive : new_canonical (codes "sharepoint:a@b.c:s:l") ≡ ok site_drive
unfolding new_canonical list_eq nat_eq
parse_site_drive = refl

new_canonical-to_string_example : new_canonical (to_string site_drive) ≡ ok site_drive
new_canonical-to_string_example =
    new_canonical-to_string (codes "sharepoint:a@b.c:s:l") site_drive parse_site_drive
      (inl (λ e. cc e))

library_becomes_site_example :
    (c d : CanonicalId) × (new_canonical
        (share_point ++ colon ∷ codes "e" ++ colon ∷ [] ++ colon ∷ codes "l")
      ≡ ok c)
    × (new_canonical (to_string c) ≡ ok d)
    × (c.library ≡ codes "l")
    × (d.site ≡ codes "l")
    × (d.library ≡ [])
library_becomes_site_example =
    library_becomes_site (codes "e") (codes "l") (λ e. cc e) (λ e. cc e) (omega arith) (omega arith)
