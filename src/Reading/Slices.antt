-- ===== src/Reading/Slices.antt =====
-- About `read_file`, the loop of sys_read over a file in src/proc/fd.c.
use noxis.Prelude.{
  ℕ, zero, suc, ◌+◌, ◌-◌, ◌≤◌, ◌<◌, ◌≡◌, refl, ap, ◌∙◌, arith, List, [], ◌∷◌, ◌++◌, length,
  get_elem?, false, some, ltb, min, Bool-cases, ltb→lt, inl, inr,
}
use noxis.Reading.{read_file}

-- A read from a position in the file returns the bytes from there on, as many as are wanted and there,
-- and moves the position behind them.
pub read_file_lem :
    (n : ℕ) (file : ℕ → ℕ) (size offset : ℕ)
    → offset ≤ size
    → let (bytes, offset') = read_file n file size offset in
      (length bytes ≡ min n (size - offset))
      × (offset' ≡ offset + length bytes)
      × ((i : ℕ) → i < length bytes → get_elem? bytes i ≡ some (file (offset + i)))
unfolding read_file
read_file_lem zero file size offset h = (omega arith, omega arith, λ i p. absurd (omega arith))
read_file_lem (suc n) file size offset h = elim (Bool-cases (ltb offset size)) [
  | inl more ↦
      let (l, o, e) = read_file_lem n file size (offset + 1) (ground arith) in
      rw (more, read_file)
        (
          omega (arith, l, ltb→lt _ _ more),
          omega (arith, o),
          λ i p. entry_at i (read_file n file size (offset + 1)).0 p e,
        )
  | inr over ↦ rw (over, read_file) (ground arith, omega arith, λ i p. absurd (omega arith))
]
  where
    entry_at :
        (i : ℕ) (rest : List ℕ)
        → i < length (file offset ∷ rest)
        → ((j : ℕ) → j < length rest → get_elem? rest j ≡ some (file (offset + 1 + j)))
        → get_elem? (file offset ∷ rest) i ≡ some (file (offset + i))
    entry_at zero rest p e =
        let same : offset ≡ offset + 0 = omega arith in ap (λ k. some (file k)) same
    entry_at (suc j) rest p e =
        let same : offset + 1 + j ≡ offset + suc j = omega arith in
        e j (omega arith) ∙ ap (λ k. some (file k)) same

-- At the end of the file there is nothing to read.
read_file-end :
    (n : ℕ) (file : ℕ → ℕ) (size offset : ℕ)
    → ltb offset size ≡ false
    → read_file n file size offset ≡ ([], offset)
unfolding read_file
read_file-end zero file size offset e = refl
read_file-end (suc n) file size offset e = rw (e, read_file) refl

-- Reading `m` bytes and then `n` more gives the bytes and the position of reading `m + n`.
pub read_file-add :
    (m n : ℕ) (file : ℕ → ℕ) (size offset : ℕ)
    → let (xs, middle) = read_file m file size offset in
      let (ys, after) = read_file n file size middle in
      read_file (m + n) file size offset ≡ (xs ++ ys, after)
unfolding read_file
read_file-add zero n file size offset =
    let same : 0 + n ≡ n = omega arith in ap (λ k. read_file k file size offset) same
read_file-add (suc m) n file size offset =
    let same : suc m + n ≡ suc (m + n) = omega arith in
    ap (λ k. read_file k file size offset) same ∙ elim (Bool-cases (ltb offset size)) [
      | inl more ↦
          rw (more, read_file)
            (ap (λ (r : List ℕ × ℕ). (file offset ∷ r.0, r.1))
              (read_file-add m n file size (offset + 1)))
      | inr over ↦ rw (over, read_file) (rw (read_file-end n file size offset over) refl)
    ]
