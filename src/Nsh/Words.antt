-- ===== src/Nsh/Words.antt =====
-- The words and redirections of a command line, printed and parsed.
use noxis.Prelude.{
  ℕ, zero, suc, ◌+◌, ◌-◌, ◌≤◌, ◌<◌, ◌≡◌, ◌≢◌, inl, inr, refl, sym, ap, ◌∙◌, true, false, List, [],
  ◌∷◌, ◌++◌, some, arith,
}
use mathlib.Core.List.{append_assoc}
use noxis.Prelude.{length, All, ==-ne, lt→ltb, length-append, ==-cases}
use mathlib.Core.Path.{ap₂}
use noxis.Paths.{Str}
use noxis.Tools.Text.{str_eq, stop_bytes}
use noxis.Nsh.{
  Command, no_command, max_args, skip_spaces, word, take_token, parse_from, parse, in_mark,
  out_mark, add_mark,
}

-- What stands on a command line: a word, < file, > file or >> file.
pub data Item : Type 0 where
  arg input output append : Str → Item

-- Each part is followed by a space.
abbrev pub print_item : Item → Str
print_item (arg w) = w ++ b' ' ∷ []
print_item (input w) = in_mark ++ b' ' ∷ w ++ b' ' ∷ []
print_item (output w) = out_mark ++ b' ' ∷ w ++ b' ' ∷ []
print_item (append w) = add_mark ++ b' ' ∷ w ++ b' ' ∷ []

abbrev pub print : List Item → Str
print [] = []
print (x ∷ xs) = print_item x ++ print xs

abbrev pub add_item : Item → Command → Command
add_item (arg w) c = record c { argv = c.argv ++ w ∷ [] }
add_item (input w) c = record c { inf = some w }
add_item (output w) c = record c { outf = some w; app = false }
add_item (append w) c = record c { outf = some w; app = true }

abbrev pub add_items : List Item → Command → Command
add_items [] c = c
add_items (x ∷ xs) c = add_items xs (add_item x c)

-- A word has at least one byte and no space or NUL; as an argument it is no redirection.
abbrev pub IsWord : Str → Type 0
IsWord w = (0 < length w) × All (λ c. (c ≢ b' ') × (c ≢ 0)) w

abbrev pub IsItem : Item → Type 0
IsItem (arg w) = IsWord w × (w ≢ in_mark) × (w ≢ out_mark) × (w ≢ add_mark)
IsItem (input w) = IsWord w
IsItem (output w) = IsWord w
IsItem (append w) = IsWord w

abbrev pub args : List Item → ℕ
args [] = 0
args (arg w ∷ xs) = suc (args xs)
args (x ∷ xs) = args xs

word-word : (w rest : Str) → All (λ c. (c ≢ b' ') × (c ≢ 0)) w → word (w ++ b' ' ∷ rest) ≡ (w, rest)
unfolding word
word-word [] rest a = refl
word-word (c ∷ cs) rest a =
    rw (==-ne c b' ' a.0.0) (ap (λ p. (c ∷ p.0, p.1)) (word-word cs rest a.1))

skip-word : (w rest : Str) → IsWord w → skip_spaces (w ++ b' ' ∷ rest) ≡ w ++ b' ' ∷ rest
unfolding skip_spaces
skip-word [] rest h = absurd (omega (arith, h.0))
skip-word (c ∷ cs) rest h = rw (==-ne c b' ' h.1.0.0)

-- strcmp tells two strings without a NUL apart.
str_eq-ne :
    (a b : Str)
    → All (λ c. (c ≢ b' ') × (c ≢ 0)) a
    → All (λ c. (c ≢ b' ') × (c ≢ 0)) b
    → a ≢ b
    → str_eq a b ≡ false
unfolding stop_bytes
str_eq-ne [] [] h k n = absurd (n refl)
str_eq-ne [] (y ∷ ys) h k n = ground (arith, k.0.1)
str_eq-ne (x ∷ xs) [] h k n = ground (arith, h.0.1)
str_eq-ne (x ∷ xs) (y ∷ ys) h k n = elim (==-cases x y) [
  | inl (s, t) ↦ rw t (str_eq-ne xs ys h.1 k.1 (λ e. n (ap₂ ◌∷◌ s e)))
  | inr (s, t) ↦ rw t t
]

module _ (rest : Str) (c : Command) where
  token-arg :
      (w : Str) → IsItem (arg w) → take_token (w ++ b' ' ∷ rest) c ≡ (add_item (arg w) c, rest)
  unfolding take_token
  token-arg w h = rw (word-word w rest h.0.1) (
      rw (
        str_eq-ne w in_mark h.0.1 (omega arith) h.1,
        str_eq-ne w out_mark h.0.1 (omega arith) h.2,
        str_eq-ne w add_mark h.0.1 (omega arith) h.3,
      ))

  module _ (w : Str) (h : IsWord w) where
    token-input : take_token (in_mark ++ b' ' ∷ w ++ b' ' ∷ rest) c ≡ (add_item (input w) c, rest)
    unfolding take_token word stop_bytes
    token-input = rw (skip-word w rest h) (rw (word-word w rest h.1))

    token-output :
        take_token (out_mark ++ b' ' ∷ w ++ b' ' ∷ rest) c ≡ (add_item (output w) c, rest)
    unfolding take_token word stop_bytes
    token-output = rw (skip-word w rest h) (rw (word-word w rest h.1))

    token-append :
        take_token (add_mark ++ b' ' ∷ w ++ b' ' ∷ rest) c ≡ (add_item (append w) c, rest)
    unfolding take_token word stop_bytes
    token-append = rw (skip-word w rest h) (rw (word-word w rest h.1))

-- A printed item starts with its first token, and is taken in one round.
take-item :
    (x : Item) (rest : Str) (c : Command)
    → IsItem x
    → take_token (print_item x ++ rest) c ≡ (add_item x c, rest)
take-item (arg w) rest c h =
    ap (λ s. take_token s c) (append_assoc w (b' ' ∷ []) rest) ∙ token-arg rest c w h
take-item (input w) rest c h =
    ap (λ s. take_token (b'<' ∷ b' ' ∷ s) c) (append_assoc w (b' ' ∷ []) rest)
    ∙ token-input rest c w h
take-item (output w) rest c h =
    ap (λ s. take_token (b'>' ∷ b' ' ∷ s) c) (append_assoc w (b' ' ∷ []) rest)
    ∙ token-output rest c w h
take-item (append w) rest c h =
    ap (λ s. take_token (b'>' ∷ b'>' ∷ b' ' ∷ s) c) (append_assoc w (b' ' ∷ []) rest)
    ∙ token-append rest c w h

first_byte :
    (x : Item) (rest : Str)
    → IsItem x
    → (y : ℕ) × (ys : Str) × (print_item x ++ rest ≡ y ∷ ys) × (y ≢ b' ')
first_byte (arg []) rest h = absurd (omega (arith, h.0.0))
first_byte (arg (y ∷ ys)) rest h = (y, (ys ++ b' ' ∷ []) ++ rest, refl, h.0.1.0.0)
first_byte (input w) rest h = (b'<', b' ' ∷ ((w ++ b' ' ∷ []) ++ rest), refl, omega arith)
first_byte (output w) rest h = (b'>', b' ' ∷ ((w ++ b' ' ∷ []) ++ rest), refl, omega arith)
first_byte (append w) rest h = (b'>', b'>' ∷ b' ' ∷ ((w ++ b' ' ∷ []) ++ rest), refl, omega arith)

-- A round on a line that starts with a token, when there is room for one more argument.
parse_round :
    (n y : ℕ) (ys : Str) (c : Command)
    → y ≢ b' '
    → length c.argv < max_args - 1
    → parse_from (suc n) (y ∷ ys) c
      ≡ parse_from n (take_token (y ∷ ys) c).1 (take_token (y ∷ ys) c).0
unfolding parse_from skip_spaces
parse_round n y ys c h k = rw (lt→ltb _ _ k, parse_from) (rw (==-ne y b' ' h))

print_size : (x : Item) (rest : Str) → length rest < length (print_item x ++ rest)
print_size (arg w) rest =
    omega (arith, length-append (w ++ b' ' ∷ []) rest, length-append w (b' ' ∷ []))
print_size (input w) rest = omega (arith, length-append (w ++ b' ' ∷ []) rest)
print_size (output w) rest = omega (arith, length-append (w ++ b' ' ∷ []) rest)
print_size (append w) rest = omega (arith, length-append (w ++ b' ' ∷ []) rest)

args-add_item :
    (x : Item) (xs : List Item) (c : Command)
    → args xs + length (add_item x c).argv ≡ args (x ∷ xs) + length c.argv
args-add_item (arg w) xs c = omega (arith, length-append c.argv (w ∷ []))
args-add_item (input w) xs c = refl
args-add_item (output w) xs c = refl
args-add_item (append w) xs c = refl

parse_from-print :
    (xs : List Item) (n : ℕ) (c : Command)
    → All IsItem xs
    → args xs + length c.argv < max_args - 1
    → length (print xs) ≤ n
    → parse_from n (print xs) c ≡ add_items xs c
unfolding parse_from
parse_from-print [] zero c a r f = refl
parse_from-print [] (suc n) c a r f = refl
parse_from-print (x ∷ xs) zero c a r f = absurd (omega (arith, print_size x (print xs)))
parse_from-print (x ∷ xs) (suc n) c a r f =
    let (y, ys, e, other) = first_byte x (print xs) a.0 in
    ap (λ s. parse_from (suc n) s c) e
    ∙ parse_round n y ys c other (omega arith)
    ∙ ap (λ s. parse_from n (take_token s c).1 (take_token s c).0) (sym e)
    ∙ ap (λ r. parse_from n r.1 r.0) (take-item x (print xs) c a.0)
    ∙ parse_from-print xs n (add_item x c) a.1 (omega (arith, args-add_item x xs c))
        (omega (arith, print_size x (print xs)))

-- A command line of words and redirections, each part followed by a space, with at most 30 arguments, is
-- parsed to these arguments, in order, and to the last file of each kind, appended to if the last one
-- for the output is after >>.
pub parse-print :
    (xs : List Item)
    → All IsItem xs
    → args xs < max_args - 1
    → parse (print xs) ≡ add_items xs no_command
unfolding parse
parse-print xs a r =
    parse_from-print xs (length (print xs)) no_command a (omega arith) (omega arith)
