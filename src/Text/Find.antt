-- ===== src/Text/Find.antt =====
-- `str.find`, `len`, slices from a position, and the order of texts by code points.
use ai_agents.Prelude.{
  ℕ, zero, suc, ◌+◌, ◌≡◌, refl, sym, ◌∙◌, ap, code, String, Bool, true, false, ◌||◌, Option, none,
  some, arith, ◌==◌, nat_eq, ltb, if◌then◌else◌,
}
use ai_agents.Text.{is_prefix}
use Prim.Native.String.{◌++◌ as str_append}
use text.Mathlib.TextLemmas.{nil-append, cons-append}

-- `len(s)`
unfoldable pub size : String → ℕ
size String.[] = 0
size (String.◌∷◌ c s) = suc (size s)

-- `s[n:]`
unfoldable pub drop : ℕ → String → String
drop zero s = s
drop (suc n) String.[] = String.[]
drop (suc n) (String.◌∷◌ c s) = drop n s

abbrev pub one_later : Option ℕ → Option ℕ
one_later none = none
one_later (some n) = some (suc n)

-- `s.find(p)`, with `none` for -1.
unfoldable pub find : String → String → Option ℕ
find p String.[] = if is_prefix p String.[] then some 0 else none
find p (String.◌∷◌ c s) =
    let rest = find p s in if is_prefix p (String.◌∷◌ c s) then some 0 else one_later rest

-- `s < t`
unfoldable pub is_below : String → String → Bool
is_below s String.[] = false
is_below String.[] (String.◌∷◌ d t) = true
is_below (String.◌∷◌ c s) (String.◌∷◌ d t) =
    let rest = is_below s t in if code c == code d then rest else ltb (code c) (code d)

pub drop-append : (x s : String) → drop (size x) (str_append x s) ≡ s
unfolding drop size
drop-append String.[] s = rw nil-append refl
drop-append (String.◌∷◌ c x) s = rw cons-append (drop-append x s)

drop-nil : (n : ℕ) → drop n "" ≡ ""
unfolding drop
drop-nil zero = refl
drop-nil (suc n) = refl

pub drop_add : (m n : ℕ) (s : String) → drop (m + n) s ≡ drop n (drop m s)
unfolding drop
drop_add zero n s = let same : 0 + n ≡ n = omega arith in ap (λ k. drop k s) same
drop_add (suc m) n String.[] = drop-nil (suc m + n) ∙ sym (drop-nil n)
drop_add (suc m) n (String.◌∷◌ c s) =
    let same : suc m + n ≡ suc (m + n) = omega arith in
    ap (λ k. drop k (String.◌∷◌ c s)) same ∙ drop_add m n s

pub is_prefix-append : (x s : String) → is_prefix x (str_append x s) ≡ true
unfolding is_prefix
is_prefix-append String.[] s = refl
is_prefix-append (String.◌∷◌ c x) s = rw cons-append (ground (arith, is_prefix-append x s))

-- Two texts that start the same text: one of them starts the other.
pub is_prefix-comparable :
    (p x s : String) → is_prefix p (str_append x s) ≡ true → (is_prefix p x || is_prefix x p) ≡ true
unfolding is_prefix
is_prefix-comparable String.[] x s h = refl
is_prefix-comparable (String.◌∷◌ c p) String.[] s h = refl
is_prefix-comparable (String.◌∷◌ c p) (String.◌∷◌ d x) s h =
    let h' = rw cons-append at h in ground (arith, is_prefix-comparable p x s)
