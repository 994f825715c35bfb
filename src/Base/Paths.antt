-- ===== src/Base/Paths.antt =====
-- What the program uses of package `path/filepath`, for Unix: a path is split at slashes.
use Prim.Native.Nat.{ℕ, suc}
use mathlib.Core.Bool.{Bool, true, false, ◌||◌}
use mathlib.Core.List.{List, [], ◌∷◌, ◌++◌, reverse}
use mathlib.Core.Option.{Option, none, some}
use ingress_bfe.Base.Tests.{◌==◌, if◌then◌else◌}
use ingress_bfe.Base.Lists.{take}
use ingress_bfe.Base.Bytes.{Text, text, text_eq, is_empty, last_index_byte, join, split_byte}

abbrev pub dot_dot : Text
dot_dot = text ".."

-- `..` after the elements that are kept, the last of them first.
abbrev pub go_up : Bool → List Text → List Text
go_up true [] = []
go_up false [] = dot_dot ∷ []
go_up rooted (part ∷ kept) = if text_eq part dot_dot then dot_dot ∷ part ∷ kept else kept

-- An element of the path, after those that are kept.
abbrev pub clean_part : Bool → Text → List Text → List Text
clean_part rooted part kept =
    if is_empty part || text_eq part (text ".")
    then kept
    else if text_eq part dot_dot
    then go_up rooted kept
    else part ∷ kept

unfoldable pub clean_parts : Bool → List Text → List Text → List Text
clean_parts rooted [] kept = reverse kept
clean_parts rooted (part ∷ parts) kept = clean_parts rooted parts (clean_part rooted part kept)

-- The path of clean elements; no elements are `/` or `.`
abbrev pub print_parts : Bool → List Text → Text
print_parts true parts = text "/" ++ join parts (text "/")
print_parts false [] = text "."
print_parts false (part ∷ parts) = join (part ∷ parts) (text "/")

-- A path that starts with a slash.
abbrev pub is_rooted : Text → Bool
is_rooted [] = false
is_rooted (c ∷ _) = c == b'/'

-- `filepath.Clean(path)`
unfoldable pub clean : Text → Text
unfolding clean_parts
clean path = print_parts (is_rooted path) (clean_parts (is_rooted path) (split_byte path b'/') [])

-- The path up to its last slash, the slash included.
abbrev pub up_to : Option ℕ → Text → Text
up_to none path = []
up_to (some i) path = take (suc i) path

-- `filepath.Dir(path)`
unfoldable pub dir : Text → Text
unfolding clean
dir path = clean (up_to (last_index_byte path b'/') path)
