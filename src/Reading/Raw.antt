-- ===== src/Reading/Raw.antt =====
-- About `raw`, the raw mode of a console read in src/proc/fd.c.
use noxis.Prelude.{
  ℕ, zero, suc, ◌+◌, ◌<◌, ◌≡◌, refl, sym, ap, ◌∙◌, inl, inr, arith, Bool, List, [], ◌∷◌, length,
  Option, none, some, min,
}
use noxis.Prelude.{==-cases}
use noxis.Reading.Line.{got-echo_byte}
use noxis.Reading.{Console, returned, echo_byte, at_least_one, raw_from, raw}

-- The characters among the polls, at most `n` of them, pushed on those got.
unfoldable pub first_keys : ℕ → List (Option ℕ) → List ℕ → List ℕ
first_keys zero polls got = got
first_keys (suc n) [] got = got
first_keys (suc n) (none ∷ polls) got = first_keys (suc n) polls got
first_keys (suc n) (some c ∷ polls) got = first_keys n polls (c ∷ got)

guard :
    (echo : Bool) (len vmin : ℕ) (polls : List (Option ℕ)) (got : List ℕ)
    → length got ≡ len
    → length got < vmin
    → raw_from echo len vmin polls got ≡ record { ended = returned; got = got; echoed = [] }
unfolding raw_from
guard echo len vmin [] got e h = ground arith
guard echo len vmin (none ∷ polls) got e h = ground arith
guard echo len vmin (some c ∷ polls) got e h = ground arith

pass_none :
    (echo : Bool) (len vmin : ℕ) (polls : List (Option ℕ)) (got : List ℕ)
    → length got < len
    → length got < vmin
    → raw_from echo len vmin (none ∷ polls) got ≡ raw_from echo len vmin polls got
unfolding raw_from
pass_none echo len vmin polls got h h' = ground arith

take_last :
    (echo : Bool) (len vmin c : ℕ) (polls : List (Option ℕ)) (got : List ℕ)
    → length got < len
    → length got + 1 ≡ vmin
    → raw_from echo len vmin (some c ∷ polls) got
      ≡ echo_byte echo c (record { ended = returned; got = c ∷ got; echoed = [] })
unfolding raw_from
take_last echo len vmin c polls got h h' = ground arith

take_one :
    (echo : Bool) (len vmin c : ℕ) (polls : List (Option ℕ)) (got : List ℕ)
    → length got < len
    → length got + 1 < vmin
    → raw_from echo len vmin (some c ∷ polls) got
      ≡ echo_byte echo c (raw_from echo len vmin polls (c ∷ got))
unfolding raw_from
take_one echo len vmin c polls got h h' = ground arith

-- What a read of `n` more characters has done.
abbrev IsRead : ℕ → ℕ → List (Option ℕ) → List ℕ → Console → Type 0
IsRead n want polls got r =
    (r.got ≡ first_keys n polls got) × (length r.got ≡ want → r.ended ≡ returned)

echo-IsRead :
    (n want : ℕ) (polls : List (Option ℕ)) (got : List ℕ) (echo : Bool) (c : ℕ) (r : Console)
    → IsRead n want polls got r
    → IsRead n want polls got (echo_byte echo c r)
echo-IsRead n want polls got echo c r (g, e) =
    let (g', e') = got-echo_byte echo c r in (g' ∙ g, λ l. e' ∙ e (ap length (sym g') ∙ l))

raw_from-IsRead :
    (echo : Bool) (len vmin n : ℕ) (polls : List (Option ℕ)) (got : List ℕ)
    → length got + n ≡ min len vmin
    → length got < vmin
    → IsRead n (min len vmin) polls got (raw_from echo len vmin polls got)
unfolding first_keys raw_from
raw_from-IsRead echo len vmin zero polls got e h =
    rw (guard echo len vmin polls got (omega arith) h) (refl, λ _. refl)
raw_from-IsRead echo len vmin (suc n) [] got e h = (refl, λ l. absurd (omega arith))
raw_from-IsRead echo len vmin (suc n) (none ∷ polls) got e h =
    rw (pass_none echo len vmin polls got (omega arith) h)
      (raw_from-IsRead echo len vmin (suc n) polls got e h)
raw_from-IsRead echo len vmin (suc n) (some c ∷ polls) got e h =
    elim (==-cases (length got + 1) vmin) [
      | inl (last, _) ↦
          let over : n ≡ 0 = omega arith in
          rw (take_last echo len vmin c polls got (omega arith) last)
            (echo-IsRead n (min len vmin) polls (c ∷ got) echo c _ (rw over refl, λ _. refl))
      | inr (more, _) ↦ rw (take_one echo len vmin c polls got (omega arith) (omega arith)) (
          echo-IsRead n (min len vmin) polls (c ∷ got) echo c _
            (raw_from-IsRead echo len vmin n polls (c ∷ got) (omega arith) (omega arith)))
    ]

-- When the polls find as many characters as a raw read wants, the setting's number, at least one, but
-- no more than the buffer holds, it takes the first so many and returns.
pub raw-IsRead :
    (echo : Bool) (len vmin : ℕ) (polls : List (Option ℕ))
    → length (first_keys (min len (at_least_one vmin)) polls []) ≡ min len (at_least_one vmin)
    → ((raw echo len vmin polls).got ≡ first_keys (min len (at_least_one vmin)) polls [])
      × ((raw echo len vmin polls).ended ≡ returned)
unfolding raw
raw-IsRead echo len vmin polls enough =
    let (g, e) =
      raw_from-IsRead echo len (at_least_one vmin) (min len (at_least_one vmin)) polls []
        (omega arith) (ground arith) in
    (g, e (ap length g ∙ enough))
