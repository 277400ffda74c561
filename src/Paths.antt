-- ===== src/Paths.antt =====
-- The path helpers of src/proc/syscalls.c, path_split and path_resolve_str, with sys_getcwd. A C
-- string is the list of its bytes before the NUL.
pub mod Split
pub mod Resolve
mod Examples
use noxis.Prelude.{
  ℕ, zero, suc, ◌+◌, ◌-◌, Bool, true, false, List, [], ◌∷◌, ◌++◌, length, get_or, take, drop, min,
}
use noxis.Prelude.{Option, none, some, ◌==◌, ◌!=◌, ◌&&◌, ltb, leb, if◌then◌else◌}

abbrev pub Str : Type 0
Str = List ℕ

abbrev pub slash : ℕ
slash = b'/'

-- The last '/' among the first `n` bytes: the loop of path_split from the end.
pub last_slash : ℕ → Str → Option ℕ
last_slash zero path = none
last_slash (suc i) path = elim (get_or path i 0 == slash) [
  | true ↦ some i
  | false ↦ last_slash i path
]

-- The parent and the name; the buffers keep 127 and 31 bytes.
pub path_split : Str → Str × Str
path_split path = elim (last_slash (length path) path) [
  | none ↦ (b'.' ∷ [], take 31 path)
  | some zero ↦ (slash ∷ [], take 31 (drop 1 path))
  | some (suc i) ↦ (take 127 (take (suc i) path), take 31 (drop (suc (suc i)) path))
]

abbrev pub is_absolute : Str → Bool
is_absolute [] = false
is_absolute (c ∷ cs) = c == slash

abbrev pub ends_with_slash : Str → Bool
ends_with_slash [] = true
ends_with_slash (c ∷ cs) = get_or (c ∷ cs) (length cs) 0 == slash

-- if (ti > 0 && tmp[ti - 1] != '/') tmp[ti++] = '/'
pub with_slash : Str → Str
with_slash b = if ends_with_slash b then b else b ++ (slash ∷ [])

-- The buffer `tmp` of 256 bytes, before its NUL.
pub joined : Str → Str → Str
joined base rel =
    let b = with_slash (take 255 base) in
    if is_absolute rel then take 255 rel else b ++ take (255 - length b) rel

-- while (*p == '/') p++
unfoldable pub skip_slashes : Str → Str
skip_slashes [] = []
skip_slashes (c ∷ cs) = elim (c == slash) [ true ↦ skip_slashes cs | false ↦ c ∷ cs ]

-- while (*p && *p != '/') p++: the bytes passed and those left.
pub token : Str → Str × Str
token [] = ([], [])
token (c ∷ cs) = elim (c == slash) [
  | true ↦ ([], c ∷ cs)
  | false ↦ (c ∷ (token cs).0, (token cs).1)
]

abbrev pub is_dot : Str → Bool
is_dot (c ∷ []) = c == b'.'
is_dot _ = false

abbrev pub is_dot_dot : Str → Bool
is_dot_dot (c ∷ d ∷ []) = c == b'.' && d == b'.'
is_dot_dot _ = false

abbrev pub pop : List Str → List Str
pop [] = []
pop (c ∷ cs) = cs

-- One component on the stack of components, whose top comes first here.
pub push_component : Str → List Str → List Str
push_component c comps =
    if is_dot c
    then comps
    else if is_dot_dot c
    then pop comps
    else if ltb (length comps) 16 && ltb (length c) 32
    then c ∷ comps
    else comps

-- The loop over the components, with the rounds left.
pub components : ℕ → Str → List Str → List Str
components zero p comps = comps
components (suc n) p comps = elim (skip_slashes p) [
  | [] ↦ comps
  | c ∷ cs ↦ components n (token (c ∷ cs)).1 (push_component (token (c ∷ cs)).0 comps)
]

abbrev pub bottom_first : List Str → List Str → List Str
bottom_first [] done = done
bottom_first (c ∷ cs) done = bottom_first cs (c ∷ done)

-- The loop that writes the components behind the first '/'; `sep` is the '/' of those after the first.
pub write_components : ℕ → Str → List Str → Str → Str
write_components size sep [] dst = dst
write_components size sep (c ∷ cs) dst =
    let dst' = dst ++ sep in
    let rest = write_components size (slash ∷ []) cs (dst' ++ take (size - 1 - length dst') c) in
    if ltb (length dst) (size - 2) then rest else dst

pub path_resolve_str : ℕ → Str → Str → Str
path_resolve_str size base rel =
    let tmp = joined base rel in
    write_components size [] (bottom_first (components (length tmp) tmp []) []) (slash ∷ [])

-- The length returned and the buffer before its NUL; `none` is -1. A NULL buffer has size 0 here.
pub sys_getcwd : ℕ → Str → Option (ℕ × Str)
sys_getcwd zero cwd = none
sys_getcwd (suc n) cwd = some (length (take n cwd), take n cwd)
