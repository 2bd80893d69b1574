-- ===== src/Text/Occurrence.antt =====
-- The position at which a text is found behind a part in which it does not start.
use ai_agents.Prelude.{
  Char, Bool-cases, inl, inr, eq_iff, string_eq, ◌==◌, ℕ, zero, suc, ◌<◌, ◌≡◌, refl, ap, String,
  Bool, true, false, not, ◌&&◌, Option, none, some, arith, nat_eq, string_eq,
}
use ai_agents.Text.{is_prefix}
use ai_agents.Text.Find.{find, size, one_later}
use Prim.Native.String.{◌++◌ as str_append}
use text.Mathlib.TextLemmas.{nil-append, cons-append}

-- `t` starts nowhere in `p`, in the text `p` followed by `r`.
abbrev pub is_silent : String → String → String → Bool
is_silent t String.[] r = true
is_silent t (String.◌∷◌ c p) r =
    not (is_prefix t (str_append (String.◌∷◌ c p) r)) && is_silent t p r

-- A position that many characters later.
abbrev pub shift : ℕ → Option ℕ → Option ℕ
shift zero o = o
shift (suc n) o = one_later (shift n o)

pub find_silent :
    (t p r : String) → is_silent t p r ≡ true → find t (str_append p r) ≡ shift (size p) (find t r)
unfolding find size
find_silent t String.[] r h = rw nil-append refl
find_silent t (String.◌∷◌ c p) r h =
    let later : is_prefix t (str_append (String.◌∷◌ c p) r) ≡ false = ground arith in
    let later' : is_prefix t (String.◌∷◌ c (str_append p r)) ≡ false = rw cons-append at later in
    rw (cons-append, later') (ap one_later (find_silent t p r (ground arith)))

pub find_here : (t r : String) → is_prefix t r ≡ true → find t r ≡ some 0
unfolding find
find_here t String.[] h = rw h refl
find_here t (String.◌∷◌ c r) h = rw h refl

-- Where the position is one, it is more than `n`.
abbrev pub IsBeyond : ℕ → Option ℕ → Type 0
IsBeyond n none = Unit
IsBeyond n (some i) = n < i

IsBeyond-later : (n : ℕ) (o : Option ℕ) → IsBeyond n o → IsBeyond (suc n) (one_later o)
IsBeyond-later n none h = tt
IsBeyond-later n (some i) h = omega arith

pub IsBeyond-shift : (n : ℕ) (o : Option ℕ) → IsBeyond 0 o → IsBeyond n (shift n o)
IsBeyond-shift zero o h = h
IsBeyond-shift (suc n) o h = IsBeyond-later n (shift n o) (IsBeyond-shift n o h)

later-IsBeyond : (o : Option ℕ) → IsBeyond 0 (one_later o)
later-IsBeyond none = tt
later-IsBeyond (some i) = omega arith

pub find-IsBeyond : (t r : String) → is_prefix t r ≡ false → IsBeyond 0 (find t r)
unfolding find
find-IsBeyond t String.[] h = rw h tt
find-IsBeyond t (String.◌∷◌ c r) h = rw h (later-IsBeyond (find t r))

pub shift-zero : (n : ℕ) → shift n (some 0) ≡ some n
shift-zero zero = refl
shift-zero (suc n) = ap one_later (shift-zero n)

pub cons-nonempty : (c : Char) (s : String) → (String.◌∷◌ c s == "") ≡ false
unfolding size
cons-nonempty c s = elim (Bool-cases (String.◌∷◌ c s == "")) [
  | inr h ↦ h
  | inl h ↦ absurd (omega (arith, ap size ((eq_iff (String.◌∷◌ c s) "").0 h)))
]

pub append-nonempty_left : (s t : String) → (s == "") ≡ false → (str_append s t == "") ≡ false
append-nonempty_left String.[] t h = absurd (ground arith)
append-nonempty_left (String.◌∷◌ c s) t h = rw cons-append (cons-nonempty c (str_append s t))

pub append-nonempty_right : (s t : String) → (t == "") ≡ false → (str_append s t == "") ≡ false
append-nonempty_right String.[] t h = rw nil-append h
append-nonempty_right (String.◌∷◌ c s) t h = rw cons-append (cons-nonempty c (str_append s t))
