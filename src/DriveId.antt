-- ===== src/DriveId.antt =====
-- internal/driveid/id.go: normalised drive identifiers. Identifiers are ASCII, so `strings.ToLower`
-- acts on the bytes `A` to `Z`.
pub mod Laws
pub mod Canonical
use onedrive_go.Base.{
  ℕ, ◌+◌, ◌-◌, Bool, true, ◌&&◌, ◌||◌, List, [], ◌∷◌, ◌++◌, Option, none, some, Bytes, codes,
  length, leb, replicate, ℕ_discrete, ◌==◌, list_eq, nat_eq, Eq, if◌then◌else◌, arith,
}

-- `type ID struct`
pub record DriveId : Type 0 where
  pub value : Bytes

abbrev pub id_min_length : ℕ
id_min_length = 16

abbrev pub zero_id_padded : Bytes
zero_id_padded = codes "0000000000000000"

-- `ID{}`
abbrev pub zero_id : DriveId
zero_id = record { value = [] }

lower_byte : ℕ → ℕ
lower_byte c = if leb b'A' c && leb c b'Z' then c + 32 else c

-- `strings.ToLower` on ASCII.
unfoldable pub to_lower : Bytes → Bytes
unfolding lower_byte
to_lower [] = []
to_lower (c ∷ s) = lower_byte c ∷ to_lower s

-- `New`
unfoldable pub new : Bytes → DriveId
unfolding to_lower
new [] = zero_id
new (c ∷ s) =
    let lower = to_lower (c ∷ s) in
    if leb id_min_length (length lower)
    then record { value = lower }
    else record { value = replicate (id_min_length - length lower) b'0' ++ lower }

-- `ID.IsZero`
unfoldable pub is_zero : DriveId → Bool
is_zero i = i.value == [] || i.value == zero_id_padded

-- `ID.Equal`
unfoldable pub equal : DriveId → DriveId → Bool
unfolding is_zero
equal a b = if a.value == b.value then true else is_zero a && is_zero b

-- What `ID.Scan` is given: SQL NULL, text, or a value of another type.
pub data SqlValue : Type 0 where
  null : SqlValue
  text : Bytes → SqlValue
  other : SqlValue

-- `ID.Scan`; `none` is the error on an unsupported type.
unfoldable pub scan : SqlValue → Option DriveId
unfolding new
scan null = some zero_id
scan (text s) = some (new s)
scan other = none

-- `ID.Value`: the zero identifier is written as SQL NULL.
unfoldable pub sql_value : DriveId → SqlValue
unfolding is_zero
sql_value i = if is_zero i then null else text i.value

drive_id_dec : Discrete DriveId
drive_id_dec = hlevel ℕ_discrete

-- `==` on `ID` compares the stored text.
instance unfoldable pub drive_id_eq : Eq DriveId
unfolding drive_id_dec
drive_id_eq = record { dec = drive_id_dec }
