-- ===== src/Reading/Examples.antt =====
-- Reads of "ab", of a corrected line and of single keys.
use noxis.Prelude.{
  ℕ, ◌+◌, ◌<◌, ◌≡◌, refl, ap, true, false, List, [], ◌∷◌, ◌++◌, length, get_elem?, Option, none,
  some, arith, ◌==◌, if◌then◌else◌,
}
use noxis.Reading.{read_file, returned, canonical, echo_byte, echo_erase, raw}
use noxis.Reading.Slices.{read_file_lem, read_file-add}
use noxis.Reading.Line.{canonical-undo, canonical-line}
use noxis.Reading.Raw.{first_keys, raw-IsRead}

abbrev text : ℕ → ℕ
text i = if i == 0 then b'a' else b'b'

read_file_lem_run :
    let (bytes, offset') = read_file 5 text 2 1 in
    (length bytes ≡ 1)
    × (offset' ≡ 1 + length bytes)
    × ((i : ℕ) → i < length bytes → get_elem? bytes i ≡ some (text (1 + i)))
read_file_lem_run = read_file_lem 5 text 2 1 (omega arith)

read_file-add_run :
    let (xs, middle) = read_file 1 text 2 0 in
    let (ys, after) = read_file 4 text 2 middle in read_file 5 text 2 0 ≡ (xs ++ ys, after)
read_file-add_run = read_file-add 1 4 text 2 0

-- x, an erase, y and return.
corrects : canonical true 16 (b'x' ∷ 8 ∷ b'y' ∷ 13 ∷ []) [] ≡ record {
  ended = returned;
  got = 10 ∷ b'y' ∷ [];
  echoed = b'x' ∷ 8 ∷ b' ' ∷ 8 ∷ b'y' ∷ 10 ∷ [];
}
unfolding canonical echo_byte echo_erase
corrects = refl

canonical-undo_run :
    ((canonical true 16 (b'x' ∷ 8 ∷ b'y' ∷ []) []).got ≡ (canonical true 16 (b'y' ∷ []) []).got)
    × ((canonical true 16 (b'x' ∷ 8 ∷ b'y' ∷ []) []).ended
        ≡ (canonical true 16 (b'y' ∷ []) []).ended)
canonical-undo_run = canonical-undo true 16 b'x' 8 (b'y' ∷ []) [] refl refl (omega arith)

canonical-line_example :
    ((canonical false 16 (b'x' ∷ b'y' ∷ 13 ∷ []) []).got ≡ 10 ∷ b'y' ∷ b'x' ∷ [])
    × ((canonical false 16 (b'x' ∷ b'y' ∷ 13 ∷ []) []).ended ≡ returned)
canonical-line_example =
    canonical-line false 16 (b'x' ∷ b'y' ∷ []) [] [] (refl, (refl, tt)) (omega arith)

abbrev two_of_three : List (Option ℕ)
two_of_three = none ∷ some 7 ∷ none ∷ some 9 ∷ some 1 ∷ []

finds_two : first_keys 2 two_of_three [] ≡ 9 ∷ 7 ∷ []
unfolding first_keys
finds_two = refl

raw-IsRead_run :
    ((raw true 16 2 two_of_three).got ≡ first_keys 2 two_of_three [])
    × ((raw true 16 2 two_of_three).ended ≡ returned)
raw-IsRead_run = raw-IsRead true 16 2 two_of_three (ap length finds_two)
