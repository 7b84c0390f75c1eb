-- ===== src/Base/Text/Prefix.antt =====
-- Byte strings, and the prefix operations of Go's `strings`.
use Prim.Native.Nat.{ℕ}
use Prim.Native.Char.{code}
use Prim.Native.String.{String}
use mathlib.Core.Path.{◌≡◌}
use mathlib.Core.Bool.{Bool, true, false, ◌&&◌}
use mathlib.Core.List.{List, [], ◌∷◌, ◌++◌, append_assoc}
use native.Mathlib.Omega.{arith}
use onedrive_go.Base.Equality.{◌==◌, nat_eq, if◌then◌else◌}

abbrev pub Bytes : Type 0
Bytes = List ℕ

-- The bytes of an ASCII text.
abbrev pub codes : String → Bytes
codes String.[] = []
codes (String.◌∷◌ c s) = code c ∷ codes s

abbrev pub slash : ℕ
slash = b'/'

-- `strings.HasPrefix(s, prefix)`
unfoldable pub has_prefix : Bytes → Bytes → Bool
has_prefix s [] = true
has_prefix [] (p ∷ ps) = false
has_prefix (c ∷ s) (p ∷ ps) = c == p && has_prefix s ps

drop_prefix : Bytes → Bytes → Bytes
drop_prefix s [] = s
drop_prefix [] (p ∷ ps) = []
drop_prefix (c ∷ s) (p ∷ ps) = drop_prefix s ps

-- `strings.TrimPrefix(s, prefix)`
unfoldable pub trim_prefix : Bytes → Bytes → Bytes
unfolding drop_prefix has_prefix
trim_prefix s prefix = if has_prefix s prefix then drop_prefix s prefix else s

-- `parent + "/"`
abbrev pub with_slash : Bytes → Bytes
with_slash p = p ++ (slash ∷ [])

pub has_prefix-append : (p r : Bytes) → has_prefix (p ++ r) p ≡ true
unfolding has_prefix
has_prefix-append [] r = ground arith
has_prefix-append (c ∷ p) r = ground (arith, has_prefix-append p r)

pub has_prefix-slash : (p r : Bytes) → has_prefix (p ++ slash ∷ r) (with_slash p) ≡ true
has_prefix-slash p r = rw (← append_assoc p (slash ∷ []) r) (has_prefix-append (with_slash p) r)

drop_prefix-append : (p r : Bytes) → drop_prefix (p ++ r) p ≡ r
unfolding drop_prefix
drop_prefix-append [] r = ground arith
drop_prefix-append (c ∷ p) r = drop_prefix-append p r

pub trim_prefix-append : (p r : Bytes) → trim_prefix (p ++ r) p ≡ r
unfolding trim_prefix
trim_prefix-append p r = ground (arith, has_prefix-append p r, drop_prefix-append p r)

append-drop_prefix : (s p : Bytes) → has_prefix s p ≡ true → s ≡ p ++ drop_prefix s p
unfolding has_prefix drop_prefix
append-drop_prefix s [] h = ground arith
append-drop_prefix [] (p ∷ ps) h = ground arith
append-drop_prefix (c ∷ s) (p ∷ ps) h = ground (arith, append-drop_prefix s ps)

-- A string with a prefix is that prefix and what `TrimPrefix` leaves.
pub append-trim_prefix : (s p : Bytes) → has_prefix s p ≡ true → s ≡ p ++ trim_prefix s p
unfolding trim_prefix
append-trim_prefix s p h = ground (arith, append-drop_prefix s p)

pub has_prefix_trans :
    (s p q : Bytes) → has_prefix s p ≡ true → has_prefix p q ≡ true → has_prefix s q ≡ true
unfolding has_prefix
has_prefix_trans s p [] h k = ground arith
has_prefix_trans s [] (q ∷ qs) h k = ground arith
has_prefix_trans [] (p ∷ ps) (q ∷ qs) h k = ground arith
has_prefix_trans (c ∷ s) (p ∷ ps) (q ∷ qs) h k = ground (arith, has_prefix_trans s ps qs)
