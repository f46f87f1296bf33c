-- ===== src/Strings/Laws.antt =====
-- When a replacement changes nothing.
use neon_oss.Base.{refl, arith, ◌≡◌, ◌≢◌}
use Prim.Native.Char.{Char, code}
use Prim.Native.String.{String}
use neon_oss.Strings.{zero, ℕ, has_prefix, replace_from, replace_all}

-- No character of the text has the code `n`.
abbrev pub Lacks : ℕ → String → Type 0
Lacks n String.[] = Unit
Lacks n (String.◌∷◌ c s) = (code c ≢ n) × Lacks n s

replace_from-Lacks :
    (p : Char) (ps new s : String)
    → Lacks (code p) s
    → replace_from (String.◌∷◌ p ps) new zero s ≡ s
unfolding replace_from has_prefix
replace_from-Lacks p ps new String.[] h = refl
replace_from-Lacks p ps new (String.◌∷◌ c s) h = ground (arith, replace_from-Lacks p ps new s h.1)

-- A text that lacks the first character of what is looked for is left as it is.
pub replace_all-Lacks :
    (p : Char) (ps new s : String) → Lacks (code p) s → replace_all s (String.◌∷◌ p ps) new ≡ s
unfolding replace_all
replace_all-Lacks p ps new s h = replace_from-Lacks p ps new s h
