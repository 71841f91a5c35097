-- ===== src/Find/Examples.antt =====
-- Searches of src/lstrlib.c.
use luarc.Prelude.{ℕ, ◌-◌, ◌≡◌, refl, true, false, List, [], ◌∷◌, take, drop, arith}
use luarc.Prelude.Int.{pos}
use luarc.Classes.{singlematch}
use luarc.Matcher.{Captures, match}
use luarc.Matcher.Accepts.{Accepts}
use luarc.Matcher.Loops.{Decides}
use luarc.Matcher.Decides.{match-Decides}
use luarc.Find.Leftmost.{Leftmost, search-Leftmost}
use luarc.Find.Plain.{First, lmemfind-First}
use luarc.Find.{search, lmemfind, str_find_aux, pushed, integer, str, str_gsub}
use luarc.Find.Gsub.{Unchanged, str_gsub-Unchanged}

-- "hello world", "o (%w+)".
abbrev subject : List ℕ
subject = b'h' ∷ b'e' ∷ b'l' ∷ b'l' ∷ b'o' ∷ b' ' ∷ b'w' ∷ b'o' ∷ b'r' ∷ b'l' ∷ b'd' ∷ []

abbrev pattern_text : List ℕ
pattern_text = b'o' ∷ b' ' ∷ b'(' ∷ b'%' ∷ b'w' ∷ b'+' ∷ b')' ∷ []

finds_word :
    str_find_aux true false subject pattern_text (pos 1)
    ≡ pushed (integer 5 ∷ integer 11 ∷ str (b'w' ∷ b'o' ∷ b'r' ∷ b'l' ∷ b'd' ∷ []) ∷ [])
unfolding str_find_aux singlematch
finds_word = refl

match-Decides_example :
    Decides (Accepts 8 subject [] 4 pattern_text) [] (match 8 subject [] 4 pattern_text)
match-Decides_example = match-Decides 8 subject [] 4 pattern_text (omega arith)

search-Leftmost_example :
    Leftmost subject pattern_text 1 11 (search subject pattern_text false 1 10)
search-Leftmost_example = search-Leftmost subject pattern_text false 1 10

lmemfind-First_example : First subject (b'o' ∷ b'r' ∷ []) 0 12 (lmemfind subject (b'o' ∷ b'r' ∷ []))
lmemfind-First_example = lmemfind-First subject (b'o' ∷ b'r' ∷ [])

-- The replacement "%0".
abbrev itself : Captures → ℕ → ℕ → List ℕ
itself cs s e = take (e - s) (drop s subject)

str_gsub-Unchanged_example : Unchanged subject 3 (str_gsub itself subject (b'l' ∷ b'*' ∷ []) 3)
str_gsub-Unchanged_example = str_gsub-Unchanged itself subject (b'l' ∷ b'*' ∷ []) 3 (λ cs s e. refl)
