-- ===== src/Paths/Examples.antt =====
-- Runs of the path helpers.
use noxis.Prelude.{ℕ, zero, ◌≡◌, ◌≢◌, ◌<◌, refl, true, [], ◌∷◌, ◌++◌, length, get_or, some, arith}
use noxis.Paths.{
  Str, slash, last_slash, path_split, joined, with_slash, components, skip_slashes, token,
  push_component, write_components, path_resolve_str, is_absolute,
}
use noxis.Paths.Split.{path_split-join}
use noxis.Paths.Resolve.{IsStack, components-IsStack, components-enough, path_resolve_str-absolute}

-- a/bc
abbrev a_bc : Str
a_bc = b'a' ∷ b'/' ∷ b'b' ∷ b'c' ∷ []

-- /x
abbrev x_dir : Str
x_dir = b'/' ∷ b'x' ∷ []

resolves : path_resolve_str 128 x_dir (b'.' ∷ b'.' ∷ b'/' ∷ b'/' ∷ b'y' ∷ []) ≡ b'/' ∷ b'y' ∷ []
unfolding path_resolve_str joined with_slash components skip_slashes token push_component
    write_components
resolves = refl

finds_slash : last_slash 4 a_bc ≡ some 1
unfolding last_slash
finds_slash = refl

path_split-join_run :
    ((path_split a_bc).0 ++ (slash ∷ (path_split a_bc).1) ≡ a_bc)
    × ((j : ℕ) → j < length (path_split a_bc).1 → get_or (path_split a_bc).1 j 0 ≢ slash)
path_split-join_run = path_split-join a_bc zero finds_slash (omega arith) (omega arith)

empty-IsStack : IsStack []
empty-IsStack = record { few = omega arith; all = tt }

components-IsStack_example : IsStack (components 4 a_bc [])
components-IsStack_example = components-IsStack 4 a_bc empty-IsStack

components-enough_run : components 5 a_bc [] ≡ components 4 a_bc []
components-enough_run = components-enough 4 a_bc [] (omega arith)

path_resolve_str-absolute_run :
    (length (path_resolve_str 128 x_dir a_bc) < 128)
    × (is_absolute (path_resolve_str 128 x_dir a_bc) ≡ true)
path_resolve_str-absolute_run = path_resolve_str-absolute 128 x_dir a_bc (omega arith)
