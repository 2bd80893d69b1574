-- ===== src/Text/Slice.antt =====
-- `s[:n]`, and the lengths of slices and sums.
use ai_agents.Prelude.{ℕ, zero, suc, ◌+◌, ◌≤◌, ◌≡◌, String, arith}
use ai_agents.Text.Find.{size}
use Prim.Native.String.{◌++◌ as str_append}
use text.Mathlib.TextLemmas.{nil-append, cons-append}

-- `s[:n]`
unfoldable pub keep : ℕ → String → String
keep zero s = String.[]
keep (suc n) String.[] = String.[]
keep (suc n) (String.◌∷◌ c s) = String.◌∷◌ c (keep n s)

pub size-keep : (n : ℕ) (s : String) → size (keep n s) ≤ n
unfolding keep size
size-keep zero s = omega arith
size-keep (suc n) String.[] = omega arith
size-keep (suc n) (String.◌∷◌ c s) = omega (arith, size-keep n s)

pub size-append : (s t : String) → size (str_append s t) ≡ size s + size t
unfolding size
size-append String.[] t = rw nil-append (omega arith)
size-append (String.◌∷◌ c s) t = rw cons-append (omega (arith, size-append s t))
