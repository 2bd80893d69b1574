-- ===== src/Text/Decimal.antt =====
-- `str(n)` for an int that is not negative, and that it can be read back.
use ai_agents.Prelude.{
  ℕ, zero, suc, ◌+◌, ◌-◌, ◌*◌, ◌/◌, ◌%◌, ◌<◌, ◌≡◌, refl, sym, ap, ◌∙◌, Char, code, String, arith,
  ltb, if◌then◌else◌, Bool-cases, inl, inr, ltb→lt,
}
use Prim.Native.String.{◌++◌ as str_append}
use text.Mathlib.TextLemmas.{nil-append, cons-append}

abbrev digit : ℕ → Char
digit zero = "0"
digit (suc zero) = "1"
digit (suc (suc zero)) = "2"
digit (suc (suc (suc zero))) = "3"
digit (suc (suc (suc (suc zero)))) = "4"
digit (suc (suc (suc (suc (suc zero))))) = "5"
digit (suc (suc (suc (suc (suc (suc zero)))))) = "6"
digit (suc (suc (suc (suc (suc (suc (suc zero))))))) = "7"
digit (suc (suc (suc (suc (suc (suc (suc (suc zero)))))))) = "8"
digit _ = "9"

abbrev one : Char → String
one c = String.◌∷◌ c String.[]

-- `n` has at most `n + 1` digits, so that fuel is enough.
decimal_fuel : ℕ → ℕ → String
decimal_fuel zero n = ""
decimal_fuel (suc f) n =
    let rest = str_append (decimal_fuel f (n / 10)) (one (digit (n % 10))) in
    if ltb n 10 then one (digit n) else rest

unfoldable pub decimal : ℕ → String
unfolding decimal_fuel
decimal n = decimal_fuel (suc n) n

-- The number that a row of digits stands for, read from the left.
read_from : ℕ → String → ℕ
read_from acc String.[] = acc
read_from acc (String.◌∷◌ c s) = read_from (acc * 10 + (code c - 48)) s

code-digit : (d : ℕ) → d < 10 → code (digit d) - 48 ≡ d
code-digit zero h = refl
code-digit (suc zero) h = refl
code-digit (suc (suc zero)) h = refl
code-digit (suc (suc (suc zero))) h = refl
code-digit (suc (suc (suc (suc zero)))) h = refl
code-digit (suc (suc (suc (suc (suc zero))))) h = refl
code-digit (suc (suc (suc (suc (suc (suc zero)))))) h = refl
code-digit (suc (suc (suc (suc (suc (suc (suc zero))))))) h = refl
code-digit (suc (suc (suc (suc (suc (suc (suc (suc zero)))))))) h = refl
code-digit (suc (suc (suc (suc (suc (suc (suc (suc (suc zero))))))))) h = refl
code-digit (suc (suc (suc (suc (suc (suc (suc (suc (suc (suc d)))))))))) h = absurd (omega arith)

read_from-append :
    (acc : ℕ) (s : String) (d : ℕ)
    → d < 10
    → read_from acc (str_append s (one (digit d))) ≡ read_from acc s * 10 + d
unfolding read_from
read_from-append acc String.[] d h = rw nil-append (omega (arith, code-digit d h))
read_from-append acc (String.◌∷◌ c s) d h =
    rw cons-append (read_from-append (acc * 10 + (code c - 48)) s d h)

read-decimal_fuel : (f n : ℕ) → n < f → read_from 0 (decimal_fuel f n) ≡ n
unfolding decimal_fuel
read-decimal_fuel zero n h = absurd (omega arith)
read-decimal_fuel (suc f) n h = elim (Bool-cases (ltb n 10)) [
  | inl small ↦ rw small (unfold read_from in omega (arith, code-digit n (ltb→lt n 10 small)))
  | inr large ↦ rw large (
      read_from-append 0 (decimal_fuel f (n / 10)) (n % 10) (omega arith)
      ∙ omega (arith, read-decimal_fuel f (n / 10) (ground arith)))
]

-- Different numbers are printed differently.
pub decimal_inj : (m n : ℕ) → decimal m ≡ decimal n → m ≡ n
unfolding decimal
decimal_inj m n h =
    sym (read-decimal_fuel (suc m) m (omega arith))
    ∙ ap (read_from 0) h
    ∙ read-decimal_fuel (suc n) n (omega arith)
