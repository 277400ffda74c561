-- ===== src/Env.antt =====
-- The environment of a process: sys_getenv, sys_setenv, sys_unsetenv and sys_getenv_at of
-- src/proc/syscalls.c. A C string is the list of its bytes before the NUL; the slots in use,
-- env[0 .. envc - 1], are a list of strings.
pub mod Lookup
pub mod Calls
pub mod Valid
mod Examples
use noxis.Prelude.{
  ℕ, zero, suc, ◌+◌, ◌-◌, ◌%◌, ◌^◌, Bool, true, false, List, [], ◌∷◌, ◌++◌, length, get_elem?, take,
  min,
}
use noxis.Prelude.{Option, none, some, ◌==◌, ltb, leb, if◌then◌else◌}

abbrev pub env_max : ℕ
env_max = 32

abbrev pub env_slot : ℕ
env_slot = 160

abbrev pub Str : Type 0
Str = List ℕ

-- The value of an entry that has this key: the comparison of the first klen bytes, and the '=' behind
-- them.
pub value_of : Str → Str → Option Str
value_of [] [] = none
value_of [] (c ∷ cs) = elim (c == b'=') [ true ↦ some cs | false ↦ none ]
value_of (k ∷ ks) [] = none
value_of (k ∷ ks) (c ∷ cs) = elim (c == k) [ true ↦ value_of ks cs | false ↦ none ]

-- The loop over the entries of sys_getenv.
pub find_value : Str → List Str → Option Str
find_value key [] = none
find_value key (e ∷ es) = elim (value_of key e) [ some v ↦ some v | none ↦ find_value key es ]

-- What a call does to the caller's buffer: nothing, a string with its NUL, or a NUL that many bytes in
-- front of the buffer.
pub data Buffer : Type 0 where
  untouched : Buffer
  holds : Str → Buffer
  before : ℕ → Buffer

-- The lines that copy a value. The buffer is NULL (`none`) or has `bufsz` bytes, whose cast to int is
-- written out; at 2^31, where (int)bufsz - 1 overflows, the result wraps.
abbrev pub copied : Option ℕ → Str → Buffer
copied none v = untouched
copied (some bufsz) v =
    let n = bufsz % 2 ^ 32 in
    if bufsz == 0
    then untouched
    else if n == 0
    then before 1
    else if n == 2 ^ 31
    then holds v
    else if ltb (2 ^ 31) n
    then before (2 ^ 32 + 1 - n)
    else holds (take (if ltb (length v) (n - 1) then length v else n - 1) v)

-- The length returned and the buffer; `none` is -1.
pub sys_getenv : Str → Option ℕ → List Str → Option (ℕ × Buffer)
sys_getenv key buf env = elim (find_value key env) [
  | some v ↦ some (length v, copied buf v)
  | none ↦ none
]

abbrev pub entry : Str → Str → Str
entry key val = key ++ (b'=' ∷ val)

-- The loop of sys_setenv that updates an entry; `none` when no entry has the key.
pub overwrite : Str → Str → List Str → Option (List Str)
overwrite key val [] = none
overwrite key val (e ∷ es) = elim (value_of key e) [
  | some _ ↦ some (entry key val ∷ es)
  | none ↦ elim (overwrite key val es) [ some es' ↦ some (e ∷ es') | none ↦ none ]
]

-- `none` is -1.
pub sys_setenv : Str → Str → List Str → Option (List Str)
sys_setenv key val env =
    if ltb env_slot (length key + 1 + length val + 1) then none else elim (overwrite key val env) [
      | some env' ↦ some env'
      | none ↦ if leb env_max (length env) then none else some (env ++ (entry key val ∷ []))
    ]

-- The entries behind the one removed move down by one.
pub sys_unsetenv : Str → List Str → Option (List Str)
sys_unsetenv key [] = none
sys_unsetenv key (e ∷ es) = elim (value_of key e) [
  | some _ ↦ some es
  | none ↦ elim (sys_unsetenv key es) [ some es' ↦ some (e ∷ es') | none ↦ none ]
]

-- An index below 2^31, which the cast to int keeps.
pub sys_getenv_at : ℕ → Option ℕ → List Str → Option (ℕ × Buffer)
sys_getenv_at idx buf env = elim (get_elem? env idx) [
  | some s ↦ some (length s, copied buf s)
  | none ↦ none
]
