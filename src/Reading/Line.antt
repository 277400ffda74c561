-- ===== src/Reading/Line.antt =====
-- About `canonical`, the canonical mode of a console read in src/proc/fd.c.
use noxis.Prelude.{
  ℕ, ◌+◌, ◌<◌, ◌≡◌, refl, ap, ◌∙◌, arith, Bool, true, false, List, [], ◌∷◌, ◌++◌, length, All,
}
use noxis.Prelude.{◌==◌, if◌then◌else◌}
use noxis.Reading.{Console, returned, is_erase, newline, echo_byte, echo_erase, canonical}

-- A key that is neither an erase nor the end of a line.
abbrev pub is_plain : ℕ → Bool
is_plain c = if is_erase c then false else if newline c == 10 then false else true

pub got-echo_byte :
    (echo : Bool) (c : ℕ) (r : Console)
    → ((echo_byte echo c r).got ≡ r.got) × ((echo_byte echo c r).ended ≡ r.ended)
unfolding echo_byte
got-echo_byte true c r = (refl, refl)
got-echo_byte false c r = (refl, refl)

got-echo_erase :
    (echo : Bool) (r : Console)
    → ((echo_erase echo r).got ≡ r.got) × ((echo_erase echo r).ended ≡ r.ended)
unfolding echo_erase
got-echo_erase true r = (refl, refl)
got-echo_erase false r = (refl, refl)

-- A plain key with room is taken.
canonical-plain :
    (echo : Bool) (len c : ℕ) (keys got : List ℕ)
    → is_plain c ≡ true
    → length got < len
    → canonical echo len (c ∷ keys) got ≡ echo_byte echo c (canonical echo len keys (c ∷ got))
unfolding canonical
canonical-plain echo len c keys [] p h = ground (arith, p)
canonical-plain echo len c keys (g ∷ gs) p h = ground (arith, p)

canonical-erase :
    (echo : Bool) (len c : ℕ) (keys : List ℕ) (g : ℕ) (gs : List ℕ)
    → is_erase c ≡ true
    → length (g ∷ gs) < len
    → canonical echo len (c ∷ keys) (g ∷ gs) ≡ echo_erase echo (canonical echo len keys gs)
unfolding canonical
canonical-erase echo len c keys g gs p h = ground (arith, p)

-- A plain key and an erase behind it, with room for one byte more, leave the read as if neither had
-- been pressed; only the screen has seen them.
pub canonical-undo :
    (echo : Bool) (len c e : ℕ) (keys got : List ℕ)
    → is_plain c ≡ true
    → is_erase e ≡ true
    → length got + 1 < len
    → ((canonical echo len (c ∷ e ∷ keys) got).got ≡ (canonical echo len keys got).got)
      × ((canonical echo len (c ∷ e ∷ keys) got).ended ≡ (canonical echo len keys got).ended)
canonical-undo echo len c e keys got p q h =
    let rest = canonical echo len keys got in
    let (g1, e1) = got-echo_byte echo c (echo_erase echo rest) in
    let (g2, e2) = got-echo_erase echo rest in
    let is : canonical echo len (c ∷ e ∷ keys) got ≡ echo_byte echo c (echo_erase echo rest) =
      canonical-plain echo len c (e ∷ keys) got p (omega arith)
      ∙ ap (echo_byte echo c) (canonical-erase echo len e keys c got q (omega arith)) in
    (ap (λ (r : Console). r.got) is ∙ g1 ∙ g2, ap (λ (r : Console). r.ended) is ∙ e1 ∙ e2)

abbrev pub push_all : List ℕ → List ℕ → List ℕ
push_all [] got = got
push_all (c ∷ cs) got = push_all cs (c ∷ got)

canonical-end :
    (echo : Bool) (len : ℕ) (keys got : List ℕ)
    → length got < len
    → canonical echo len (13 ∷ keys) got
      ≡ echo_byte echo 10 (record { ended = returned; got = 10 ∷ got; echoed = [] })
unfolding canonical
canonical-end echo len keys [] h = ground arith
canonical-end echo len keys (g ∷ gs) h = ground arith

-- Plain keys and the return key, when they fit the buffer with what is there, are read as they are,
-- with a newline at the end, and the call returns.
pub canonical-line :
    (echo : Bool) (len : ℕ) (line keys got : List ℕ)
    → All (λ c. is_plain c ≡ true) line
    → length got + length line < len
    → ((canonical echo len (line ++ (13 ∷ keys)) got).got ≡ 10 ∷ push_all line got)
      × ((canonical echo len (line ++ (13 ∷ keys)) got).ended ≡ returned)
canonical-line echo len [] keys got a h =
    let is = canonical-end echo len keys got (omega arith) in
    let (g, e) = got-echo_byte echo 10 (record { ended = returned; got = 10 ∷ got; echoed = [] }) in
    (ap (λ (r : Console). r.got) is ∙ g, ap (λ (r : Console). r.ended) is ∙ e)
canonical-line echo len (c ∷ cs) keys got (p, a) h =
    let is = canonical-plain echo len c (cs ++ (13 ∷ keys)) got p (omega arith) in
    let (g, e) = got-echo_byte echo c (canonical echo len (cs ++ (13 ∷ keys)) (c ∷ got)) in
    let (g', e') = canonical-line echo len cs keys (c ∷ got) a (omega arith) in
    (ap (λ (r : Console). r.got) is ∙ g ∙ g', ap (λ (r : Console). r.ended) is ∙ e ∙ e')
