-- ===== src/EnvFile/Quotes.antt =====
-- The quotes around a value in secnano/env.py.
use Prim.Native.Char.{code}
use secnano.Prelude.{ℕ, String, ◌≡◌, refl, ap, ◌⧺◌}
use secnano.EnvFile.{last_code, drop_last, strip_quotes}

drop_last-append : (s : String) → drop_last (s ⧺ "\"") ≡ s
unfolding ◌⧺◌
drop_last-append String.[] = refl
drop_last-append (String.◌∷◌ c String.[]) = refl
drop_last-append (String.◌∷◌ c (String.◌∷◌ d s)) =
    ap (λ (r : String). String.◌∷◌ c r) (drop_last-append (String.◌∷◌ d s))

last_code-append : (c : ℕ) (s : String) → last_code c (s ⧺ "\"") ≡ 34
unfolding ◌⧺◌
last_code-append c String.[] = refl
last_code-append c (String.◌∷◌ d s) = last_code-append (code d) s

-- A value in double quotes is read as what is between them, quotes included.
pub strip_quotes-append : (s : String) → strip_quotes ("\"" ⧺ s ⧺ "\"") ≡ s
unfolding strip_quotes ◌⧺◌
strip_quotes-append String.[] = refl
strip_quotes-append (String.◌∷◌ c s) =
    rw (last_code-append (code c) s) (drop_last-append (String.◌∷◌ c s))
