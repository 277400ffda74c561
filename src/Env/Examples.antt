-- ===== src/Env/Examples.antt =====
-- Runs of the environment calls on the bytes of short strings.
use noxis.Prelude.{ℕ, ◌≡◌, ◌≢◌, refl, List, [], ◌∷◌, none, some, arith, ◌==◌, false}
use noxis.Env.{
  Str, holds, before, value_of, find_value, overwrite, sys_getenv, sys_setenv, sys_unsetenv,
}
use noxis.Env.Calls.{IsEnv, sys_getenv-setenv, sys_getenv-setenv_other, sys_getenv-unsetenv}
use noxis.Env.Valid.{sys_setenv-IsEnv}

-- A, AB and their values.
abbrev a : Str
a = b'A' ∷ []

abbrev ab : Str
ab = b'A' ∷ b'B' ∷ []

abbrev env : List Str
env = (b'A' ∷ b'=' ∷ b'x' ∷ []) ∷ []

abbrev both : List Str
both = (b'A' ∷ b'=' ∷ b'x' ∷ []) ∷ (b'A' ∷ b'B' ∷ b'=' ∷ b'y' ∷ b'z' ∷ []) ∷ []

sets_second : sys_setenv ab (b'y' ∷ b'z' ∷ []) env ≡ some both
unfolding sys_setenv overwrite value_of
sets_second = refl

unsets_first : sys_unsetenv a both ≡ some ((b'A' ∷ b'B' ∷ b'=' ∷ b'y' ∷ b'z' ∷ []) ∷ [])
unfolding sys_unsetenv value_of
unsets_first = refl

apart : {x y : ℕ} → (x == y) ≡ false → x ≢ y
apart {x} {y} e = ground arith

env-IsEnv : IsEnv env
unfolding find_value
env-IsEnv = record {
  few = omega arith;
  short = (omega arith, tt);
  distinct = ((λ key v b e. refl), tt);
}

sys_setenv-IsEnv_run : IsEnv both
sys_setenv-IsEnv_run =
    sys_setenv-IsEnv ab (b'y' ∷ b'z' ∷ []) env (apart refl, (apart refl, tt)) env-IsEnv sets_second

sys_getenv-setenv_example : sys_getenv ab (some 2) both ≡ some (2, holds (b'y' ∷ []))
sys_getenv-setenv_example =
    sys_getenv-setenv ab (b'y' ∷ b'z' ∷ []) env 2 (omega arith) (omega arith) sets_second

-- A size of 2^64 - 1 is -1 as an int: the NUL is stored two bytes in front of the buffer.
getenv_before : sys_getenv ab (some 0xFFFFFFFFFFFFFFFF) both ≡ some (2, before 2)
unfolding sys_getenv find_value value_of
getenv_before = refl

a≢ab : a ≢ ab
a≢ab = ground arith

ab≢a : ab ≢ a
ab≢a = ground arith

sys_getenv-setenv_other_run : sys_getenv a (some 8) both ≡ sys_getenv a (some 8) env
sys_getenv-setenv_other_run =
    sys_getenv-setenv_other a ab (b'y' ∷ b'z' ∷ []) env (some 8) (apart refl, tt)
      (apart refl, (apart refl, tt)) a≢ab sets_second

sys_getenv-unsetenv_run :
    (sys_getenv a (some 8) ((b'A' ∷ b'B' ∷ b'=' ∷ b'y' ∷ b'z' ∷ []) ∷ []) ≡ none)
    × (sys_getenv ab (some 8) ((b'A' ∷ b'B' ∷ b'=' ∷ b'y' ∷ b'z' ∷ []) ∷ [])
        ≡ sys_getenv ab (some 8) both)
sys_getenv-unsetenv_run =
    sys_getenv-unsetenv a ab both (some 8) (apart refl, tt) (apart refl, (apart refl, tt)) ab≢a
      sys_setenv-IsEnv_run unsets_first
