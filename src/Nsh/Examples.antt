-- ===== src/Nsh/Examples.antt =====
-- Tests of the shell's parser, and the theorems at inputs that meet their hypotheses.
use noxis.Prelude.{◌+◌, List, [], ◌∷◌, ◌++◌, ◌≡◌, refl, true, false, arith}
use noxis.Prelude.{length, get_or, ap}
use noxis.Paths.{Str}
use noxis.Nsh.{
  parse, no_command, is_kw, trim, strncmp_eq, kw_if, kw_fi, kw_while, kw_done, find_end,
  collect_block, after_kw, trim_end,
}
use noxis.Nsh.Words.{Item, arg, input, append, IsItem, print, add_items, parse-print}
use noxis.Nsh.Blocks.{Nested, nothing, plain, block, find_end-closes}

abbrev ls_word : Str
ls_word = b'l' ∷ b's' ∷ []

abbrev file_word : Str
file_word = b'f' ∷ []

-- ls < f >> f ls
abbrev items : List Item
items = arg ls_word ∷ input file_word ∷ append file_word ∷ arg ls_word ∷ []

ls-IsItem : IsItem (arg ls_word)
ls-IsItem = (
  omega arith,
  (λ e. omega (arith, ap (λ (l : Str). get_or l 0 0) e)),
  (λ e. omega (arith, ap (λ (l : Str). get_or l 0 0) e)),
  (λ e. omega (arith, ap (λ (l : Str). get_or l 0 0) e)),
)

file-IsItem : IsItem (input file_word)
file-IsItem = omega arith

parse-print_example : parse (print items) ≡ add_items items no_command
parse-print_example =
    parse-print items (ls-IsItem, (file-IsItem, (file-IsItem, (ls-IsItem, tt)))) (omega arith)

-- " if ls ;"
abbrev if_line : Str
if_line = b' ' ∷ b'i' ∷ b'f' ∷ b' ' ∷ b'l' ∷ b's' ∷ b' ' ∷ b';' ∷ []

after_kw_run : after_kw if_line kw_if 256 ≡ ls_word
unfolding after_kw trim trim_end
after_kw_run = refl

-- An if within the block, then the fi that closes it.
abbrev inner : List Str
inner = ls_word ∷ if_line ∷ ls_word ∷ kw_fi ∷ []

inner-Nested : Nested (λ l. is_kw l kw_if) (λ l. is_kw l kw_fi) inner
unfolding is_kw trim strncmp_eq
inner-Nested = plain refl refl (block refl (plain refl refl nothing) refl refl nothing refl)

if_not_fi : is_kw kw_fi kw_if ≡ false
unfolding is_kw trim strncmp_eq
if_not_fi = refl

fi_is_fi : is_kw kw_fi kw_fi ≡ true
unfolding is_kw trim strncmp_eq
fi_is_fi = refl

find_end-closes_example : find_end (inner ++ kw_fi ∷ ls_word ∷ []) 3 kw_if kw_fi ≡ 3 + length inner
find_end-closes_example =
    find_end-closes kw_if kw_fi kw_fi (ls_word ∷ []) 3 inner-Nested if_not_fi fi_is_fi

-- collect_block goes on behind the fi of an if that holds a loop: it counts the loop's opening, and
-- only a fi as an end.
collect_too_much :
    collect_block if_line (kw_while ∷ kw_done ∷ kw_fi ∷ ls_word ∷ [])
    ≡ if_line ∷ kw_while ∷ kw_done ∷ kw_fi ∷ ls_word ∷ []
unfolding collect_block is_kw trim strncmp_eq
collect_too_much = refl
