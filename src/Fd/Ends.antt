-- ===== src/Fd/Ends.antt =====
-- About the counts of the pipe ends: how many descriptors of live processes refer to one.
use noxis.Prelude.{ℕ, zero, suc, ◌+◌, ◌≤◌, ◌<◌, ◌≡◌, refl, sym, ap, ◌∙◌, inl, inr}
use noxis.Prelude.{Bool, true, false, not, List, [], ◌∷◌, Option, none, some, arith}
use noxis.Prelude.{◌==◌, ◌&&◌, ==-self, update_self, update_ne, update, if◌then◌else◌, ==-cases}
use mathlib.Core.Path.{subst}
use noxis.Pipe.{Pipe, End, reader, writer, pipe_addref, pipe_close}
use noxis.Fd.{Files, Fd, Table, max_fds, is_closed, fd_get, pipe_of, close_at, add_at}

abbrev pub end_count : End → Pipe → ℕ
end_count reader p = p.readers
end_count writer p = p.writers

abbrev same_end : End → End → Bool
same_end reader reader = true
same_end writer writer = true
same_end _ _ = false

-- 1 if a descriptor refers to end `d` of pipe `i`.
abbrev pub ref_at : End → ℕ → Option (End × ℕ) → ℕ
ref_at d i (some (d', j)) = if same_end d d' && j == i then 1 else 0
ref_at d i none = 0

abbrev pub ref : End → ℕ → Fd → ℕ
ref d i e = ref_at d i (pipe_of e)

-- The references of the first `n` descriptors of a table.
unfoldable pub table_refs : End → ℕ → ℕ → Table → ℕ
table_refs d i zero t = 0
table_refs d i (suc n) t = ref d i (t n) + table_refs d i n t

unfoldable pub list_refs : End → ℕ → List Table → ℕ
list_refs d i [] = 0
list_refs d i (t ∷ ts) = table_refs d i max_fds t + list_refs d i ts

unfoldable pub refs : End → ℕ → Files → ℕ
refs d i s = table_refs d i max_fds s.fds + list_refs d i s.others

abbrev pub is_referred : Pipe → Bool
is_referred p = not (p.readers == 0 && p.writers == 0)

-- Every count is exact, and a pipe is in use just when an end of it is open.
pub record IsExact (s : Files) : Type 0 where
  pub counts : (d : End) (i : ℕ) → end_count d (s.pipes i) ≡ refs d i s
  pub in_use : (i : ℕ) → (s.pipes i).used ≡ is_referred (s.pipes i)

end_count-addref :
    (d d' : End) (p : Pipe)
    → end_count d (pipe_addref d' p) ≡ end_count d p + (if same_end d d' then 1 else 0)
unfolding pipe_addref
end_count-addref reader reader p = omega arith
end_count-addref reader writer p = omega arith
end_count-addref writer reader p = omega arith
end_count-addref writer writer p = omega arith

end_count-close :
    (d d' : End) (p : Pipe)
    → (if same_end d d' then 1 else 0) ≤ end_count d p
    → end_count d (pipe_close d' p) + (if same_end d d' then 1 else 0) ≡ end_count d p
unfolding pipe_close
end_count-close reader reader p h = ground arith
end_count-close reader writer p h = ground arith
end_count-close writer reader p h = ground arith
end_count-close writer writer p h = ground arith

used-close :
    (d : End) (p : Pipe)
    → p.used ≡ is_referred p
    → (pipe_close d p).used ≡ is_referred (pipe_close d p)
unfolding pipe_close
used-close reader p h = ground arith
used-close writer p h = ground arith

used-addref :
    (d : End) (p : Pipe)
    → 0 < end_count d p
    → p.used ≡ is_referred p
    → (pipe_addref d p).used ≡ is_referred (pipe_addref d p)
unfolding pipe_addref
used-addref reader p h e = ground arith
used-addref writer p h e = ground arith

-- The two helpers of the table, at any pipe.
pub end_count-add_at :
    (d : End) (i : ℕ) (x : Option (End × ℕ)) (pipes : ℕ → Pipe)
    → end_count d (add_at x pipes i) ≡ end_count d (pipes i) + ref_at d i x
unfolding add_at
end_count-add_at d i none pipes = omega arith
end_count-add_at d i (some (d', j)) pipes =
    ground (arith, ==-cases j i, end_count-addref d d' (pipes j), ap (λ k. end_count d (pipes k)))

close_same :
    (d d' : End) (j : ℕ) (pipes : ℕ → Pipe)
    → ref_at d j (some (d', j)) ≤ end_count d (pipes j)
    → end_count d (update pipes j (pipe_close d' (pipes j)) j) + ref_at d j (some (d', j))
      ≡ end_count d (pipes j)
close_same d d' j pipes h =
    let one : ref_at d j (some (d', j)) ≡ (if same_end d d' then 1 else 0) =
      ground (arith, ==-self j) in
    let kept = end_count-close d d' (pipes j) (rw one at h) in rw (one, update_self) kept

same_pipe :
    (d d' : End) (j i : ℕ) (pipes : ℕ → Pipe)
    → j ≡ i
    → ref_at d i (some (d', j)) ≤ end_count d (pipes i)
    → ref_at d j (some (d', j)) ≤ end_count d (pipes j)
same_pipe d d' j i pipes e h =
    subst (λ k. ref_at d k (some (d', j)) ≤ end_count d (pipes k)) (sym e) h

pub end_count-close_at :
    (d : End) (i : ℕ) (x : Option (End × ℕ)) (pipes : ℕ → Pipe)
    → ref_at d i x ≤ end_count d (pipes i)
    → end_count d (close_at x pipes i) + ref_at d i x ≡ end_count d (pipes i)
unfolding close_at
end_count-close_at d i none pipes h = omega arith
end_count-close_at d i (some (d', j)) pipes h = elim (==-cases j i) [
  | inl (e, b) ↦ rw (← e) (close_same d d' j pipes (same_pipe d d' j i pipes e h))
  | inr (ne, b) ↦ ground arith
]

pub table_refs-above :
    (n : ℕ) (d : End) (i k : ℕ) (e : Fd) (t : Table)
    → n ≤ k
    → table_refs d i n (update t k e) ≡ table_refs d i n t
unfolding table_refs
table_refs-above zero d i k e t h = refl
table_refs-above (suc n) d i k e t h = omega (
  arith,
  table_refs-above n d i k e t (omega arith),
  ap (ref d i) (update_ne t k n e (omega arith)),
)

-- One entry of a table changes.
pub table_refs-update :
    (n : ℕ) (d : End) (i k : ℕ) (e : Fd) (t : Table)
    → k < n
    → table_refs d i n (update t k e) + ref d i (t k) ≡ table_refs d i n t + ref d i e
unfolding table_refs
table_refs-update zero d i k e t h = absurd (omega arith)
table_refs-update (suc n) d i k e t h = elim (==-cases k n) [
  | inl (same, b) ↦ omega (
    arith,
    table_refs-above n d i k e t (omega arith),
    ap (λ m. ref d i (update t k e m)) (sym same) ∙ ap (ref d i) (update_self t k e),
    ap (λ m. ref d i (t m)) same,
  )
  | inr (ne, b) ↦
      omega
        (arith, table_refs-update n d i k e t (omega arith), ap (ref d i) (update_ne t k n e ne))
]

-- A descriptor of the table is counted.
pub ref-le : (n : ℕ) (d : End) (i k : ℕ) (t : Table) → k < n → ref d i (t k) ≤ table_refs d i n t
unfolding table_refs
ref-le zero d i k t h = absurd (omega arith)
ref-le (suc n) d i k t h = elim (==-cases k n) [
  | inl (same, b) ↦ omega (arith, ap (λ m. ref d i (t m)) same)
  | inr (ne, b) ↦ omega (arith, ref-le n d i k t (omega arith))
]

pub fd_get_cases :
    (fd : ℕ) (t : Table) {e : Fd}
    → fd_get fd t ≡ some e
    → (fd < max_fds) × (e ≡ t fd) × (is_closed e ≡ false)
unfolding fd_get
fd_get_cases fd t h = ground arith

pub ref-closed : (d : End) (i : ℕ) (e : Fd) → is_closed e ≡ true → ref d i e ≡ 0
ref-closed d i e h = ground arith

-- The flag of one pipe.
abbrev pub IsFlagged : (ℕ → Pipe) → Type 0
IsFlagged pipes = (i : ℕ) → (pipes i).used ≡ is_referred (pipes i)

pub IsFlagged-close_at :
    (x : Option (End × ℕ)) (pipes : ℕ → Pipe) → IsFlagged pipes → IsFlagged (close_at x pipes)
unfolding close_at
IsFlagged-close_at none pipes h i = h i
IsFlagged-close_at (some (d, j)) pipes h i = ground (arith, h i, h j, used-close d (pipes j) (h j))

pub IsFlagged-add_at :
    (x : Option (End × ℕ)) (pipes : ℕ → Pipe)
    → ((d : End) (j : ℕ) → 0 < ref_at d j x → 0 < end_count d (pipes j))
    → IsFlagged pipes
    → IsFlagged (add_at x pipes)
unfolding add_at
IsFlagged-add_at none pipes held h i = h i
IsFlagged-add_at (some (d, j)) pipes held h i =
    ground (arith, h i, h j, used-addref d (pipes j) (held d j (one_at d j)) (h j))
  where
    one_at : (d : End) (j : ℕ) → 0 < ref_at d j (some (d, j))
    one_at reader j = ground (arith, ==-self j)
    one_at writer j = ground (arith, ==-self j)
