-- ===== src/Base/Text/Paths.antt =====
-- Slash-separated paths: Go's `path.Base`, `filepath.Clean` and `filepath.Dir` on a Unix system.
use Prim.Native.Nat.{ℕ}
use mathlib.Core.Path.{◌≡◌, refl}
use mathlib.Core.Bool.{Bool, false, ◌||◌}
use mathlib.Core.List.{List, [], ◌∷◌, ◌++◌, reverse}
use onedrive_go.Base.Equality.{◌==◌, nat_eq, list_eq, if◌then◌else◌}
use onedrive_go.Base.Text.Prefix.{Bytes, slash, codes}

-- Puts a byte in front of the first segment.
unfoldable pub onto_first : ℕ → List Bytes → List Bytes
onto_first c [] = (c ∷ []) ∷ []
onto_first c (s ∷ ss) = (c ∷ s) ∷ ss

-- `strings.Split(p, "/")`
unfoldable pub segments : Bytes → List Bytes
unfolding onto_first
segments [] = [] ∷ []
segments (c ∷ p) = if c == slash then [] ∷ segments p else onto_first c (segments p)

-- `strings.Join(segments, "/")`
unfoldable pub join : List Bytes → Bytes
join [] = []
join (s ∷ []) = s
join (s ∷ t ∷ ss) = s ++ slash ∷ join (t ∷ ss)

is_rooted : Bytes → Bool
is_rooted [] = false
is_rooted (c ∷ p) = c == slash

-- A `..` segment: it takes the last kept one away, or stays at the front of a relative path. The
-- kept segments come last first.
climb : Bool → List Bytes → List Bytes
climb rooted [] = if rooted then [] else codes ".." ∷ []
climb rooted (s ∷ ss) = if s == codes ".." then codes ".." ∷ s ∷ ss else ss

-- One segment of `filepath.Clean`.
keep_segment : Bool → List Bytes → Bytes → List Bytes
unfolding climb
keep_segment rooted kept s =
    if s == [] || s == codes "."
    then kept
    else if s == codes ".."
    then climb rooted kept
    else s ∷ kept

keep_segments : Bool → List Bytes → List Bytes → List Bytes
unfolding keep_segment
keep_segments rooted kept [] = kept
keep_segments rooted kept (s ∷ ss) = keep_segments rooted (keep_segment rooted kept s) ss

or_dot : Bytes → Bytes
or_dot [] = codes "."
or_dot (c ∷ p) = c ∷ p

-- `filepath.Clean`
unfoldable pub clean : Bytes → Bytes
unfolding keep_segments segments join is_rooted or_dot
clean p =
    let rooted = is_rooted p in
    let body = join (reverse (keep_segments rooted [] (segments p))) in
    or_dot (if rooted then slash ∷ body else body)

-- All segments but the last.
init_segments : List Bytes → List Bytes
init_segments [] = []
init_segments (s ∷ []) = []
init_segments (s ∷ t ∷ ss) = s ∷ init_segments (t ∷ ss)

last_segment : List Bytes → Bytes
last_segment [] = []
last_segment (s ∷ []) = s
last_segment (s ∷ t ∷ ss) = last_segment (t ∷ ss)

-- The path up to its last slash, which stays at the end.
up_to_slash : List Bytes → Bytes
unfolding join
up_to_slash [] = []
up_to_slash (s ∷ ss) = join (s ∷ ss) ++ slash ∷ []

-- `filepath.Dir`
unfoldable pub dir : Bytes → Bytes
unfolding up_to_slash init_segments segments clean
dir p = clean (up_to_slash (init_segments (segments p)))

dir_nested : dir (codes "a/b/c") ≡ codes "a/b"
unfolding dir nat_eq list_eq
dir_nested = refl

dir_flat : dir (codes "a") ≡ codes "."
unfolding dir nat_eq list_eq
dir_flat = refl

dir_root : dir (codes "/a") ≡ codes "/"
unfolding dir nat_eq list_eq
dir_root = refl

clean_dots : clean (codes "../a//./b/../c/") ≡ codes "../a/c"
unfolding clean nat_eq list_eq
clean_dots = refl

-- The path without its trailing slashes, as segments: empty segments at the end go.
drop_empty : List Bytes → List Bytes
drop_empty [] = []
drop_empty (s ∷ ss) = elim (drop_empty ss) [
  | [] ↦ if s == [] then [] else s ∷ []
  | t ∷ ts ↦ s ∷ t ∷ ts
]

base_of : Bytes → List Bytes → Bytes
unfolding last_segment
base_of [] ss = codes "."
base_of (c ∷ p) [] = codes "/"
base_of (c ∷ p) (s ∷ ss) = last_segment (s ∷ ss)

-- `path.Base`
unfoldable pub base : Bytes → Bytes
unfolding base_of drop_empty segments
base p = base_of p (drop_empty (segments p))

base_nested : base (codes "a/bc//") ≡ codes "bc"
unfolding base nat_eq list_eq
base_nested = refl

base_slashes : base (codes "//") ≡ codes "/"
unfolding base nat_eq list_eq
base_slashes = refl
