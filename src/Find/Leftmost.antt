-- ===== src/Find/Leftmost.antt =====
-- `str_find_aux` of src/lstrlib.c finds the leftmost match of a pattern.
use luarc.Prelude.{
  ℕ, zero, suc, ◌+◌, ◌<◌, ◌≤◌, Bool, true, false, none, some, List, [], length, arith, ◌==◌,
  Bool-cases, inl, inr, if◌then◌else◌, ==_iff,
}
use mathlib.Core.Path.{subst}
use luarc.Matcher.{Outcome, ended, err, out_of_fuel, match}
use luarc.Matcher.Accepts.{End, Accepts}
use luarc.Matcher.Loops.{Decides}
use luarc.Matcher.Decides.{match-Decides}
use luarc.Find.{Search, found, nothing, failed, spent, search, or_further}

-- Whether the pattern matches at `s`, and to where.
abbrev pub MatchesAt : List ℕ → (p : List ℕ) → (s : ℕ) → End → Type 0
MatchesAt src p s = Accepts (suc (length p)) src [] s p

-- No match at any position from `s` on before `t`.
abbrev pub NoneIn : List ℕ → (p : List ℕ) → (s t : ℕ) → Type 0
NoneIn src p s t = (i : ℕ) → s ≤ i → i < t → (r : End) → MatchesAt src p i r → ⊥

-- The answer to a search from `s` up to position `last`.
abbrev pub Leftmost : List ℕ → (p : List ℕ) → (s last : ℕ) → Search → Type 0
Leftmost src p s last (found i e cs) =
    (s ≤ i) × (i ≤ last) × MatchesAt src p i (e, cs) × NoneIn src p s i
Leftmost src p s last nothing = NoneIn src p s (suc last)
Leftmost src p s last (failed x) = Unit {0}
Leftmost src p s last spent = ⊥

none_before : (src p : List ℕ) (s : ℕ) → NoneIn src p s s
none_before src p s i le lt r a = absurd (omega arith)

one_more :
    (src p : List ℕ) (s t : ℕ)
    → ((r : End) → MatchesAt src p s r → ⊥)
    → NoneIn src p (suc s) t
    → NoneIn src p s t
one_more src p s t here later i le lt r a = elim (Bool-cases (i == s)) [
  | inl same ↦ here r (subst (λ n. MatchesAt src p n r) ((==_iff i s).0 same) a)
  | inr other ↦ later i (ground arith) lt r a
]

further-Leftmost :
    (src p : List ℕ) (s last : ℕ) (o : Outcome) (further : Search)
    → s ≤ last
    → Decides (MatchesAt src p s) [] o
    → (((r : End) → MatchesAt src p s r → ⊥) → Leftmost src p s last further)
    → Leftmost src p s last (or_further s o further)
further-Leftmost src p s last (ended (some e) cs) further le d next =
    (omega arith, le, d, none_before src p s)
further-Leftmost src p s last (ended none cs) further le d next = next d.1
further-Leftmost src p s last (err x) further le d next = tt
further-Leftmost src p s last out_of_fuel further le d next = d

Leftmost-suc :
    (src p : List ℕ) (s last : ℕ) (o : Search)
    → ((r : End) → MatchesAt src p s r → ⊥)
    → Leftmost src p (suc s) last o
    → Leftmost src p s last o
Leftmost-suc src p s last (found i e cs) here (le, le', a, before) =
    (omega arith, le', a, one_more src p s i here before)
Leftmost-suc src p s last nothing here before = one_more src p s (suc last) here before
Leftmost-suc src p s last (failed x) here h = tt
Leftmost-suc src p s last spent here h = h

last_try :
    (src p : List ℕ) (s : ℕ)
    → Leftmost src p s s (or_further s (match (suc (length p)) src [] s p) nothing)
last_try src p s =
    further-Leftmost src p s s (match (suc (length p)) src [] s p) nothing (omega arith)
      (match-Decides (suc (length p)) src [] s p (omega arith))
      (λ here. one_more src p s (suc s) here (none_before src p (suc s)))

-- But for an error in the pattern, a search from `s` gives the first position that the pattern
-- matches at, up to `left` positions further, or only at `s` itself if it is anchored, with the end of a match there and its
-- captures; and nothing, where there is none.
pub search-Leftmost :
    (src p : List ℕ) (anchor : Bool) (s left : ℕ)
    → Leftmost src p s (if anchor then s else s + left) (search src p anchor s left)
unfolding search
search-Leftmost src p true s zero = last_try src p s
search-Leftmost src p false s zero =
    subst (λ n. Leftmost src p s n (search src p false s zero)) (omega arith) (last_try src p s)
search-Leftmost src p true s (suc left) = last_try src p s
search-Leftmost src p false s (suc left) =
    further-Leftmost src p s (s + suc left) (match (suc (length p)) src [] s p)
      (search src p false (suc s) left) (omega arith)
      (match-Decides (suc (length p)) src [] s p (omega arith))
      (λ here. Leftmost-suc src p s (s + suc left) (search src p false (suc s) left) here (
        subst (λ n. Leftmost src p (suc s) n (search src p false (suc s) left)) (omega arith)
          (search-Leftmost src p false (suc s) left)))
