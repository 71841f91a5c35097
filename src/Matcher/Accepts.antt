-- ===== src/Matcher/Accepts.antt =====
-- What a pattern of src/lstrlib.c matches, with no order of trying: a match is a way to choose how often
-- each item is repeated.
use luarc.Prelude.{ℕ, zero, suc, ◌+◌, ◌-◌, ◌<◌, ◌≡◌, ◌⊎◌, true, some, List, [], ◌∷◌, ◌++◌, length}
use luarc.Classes.{peek, tail}
use luarc.Matcher.{
  Captures, unfinished, at_position, bytes, matches_one, last_unfinished, set_len, init_of,
  matchbalance, check_capture, match_capture, at_frontier, Item, finish, end_anchor, open_position,
  open_capture, close_capture, balance, frontier, single, back_reference, bad, item, Repetition,
  optional, star, plus, minus, once, repetition, Capture,
}

-- The item matches each of the `k` bytes from `s` on.
abbrev pub Run : List ℕ → (p ep : List ℕ) → (s k : ℕ) → Type 0
Run src p ep s k = (j : ℕ) → j < k → matches_one src (s + j) p ep ≡ true

-- Where a match ends, and its captures.
abbrev pub End : Type 0
End = ℕ × Captures

abbrev pub Rest : Type 1
Rest = Captures → ℕ → List ℕ → End → Type 0

abbrev pub AcceptsRepeated :
    Rest → List ℕ → Captures → ℕ → (p ep : List ℕ) → Repetition → End → Type 0
AcceptsRepeated A src cs s p ep optional r =
    ((matches_one src s p ep ≡ true) × A cs (suc s) (tail ep) r) ⊎ A cs s (tail ep) r
AcceptsRepeated A src cs s p ep star r = (k : ℕ) × Run src p ep s k × A cs (s + k) (tail ep) r
AcceptsRepeated A src cs s p ep plus r =
    (matches_one src s p ep ≡ true)
    × ((k : ℕ) × Run src p ep (suc s) k × A cs (suc s + k) (tail ep) r)
AcceptsRepeated A src cs s p ep minus r = (k : ℕ) × Run src p ep s k × A cs (s + k) (tail ep) r
AcceptsRepeated A src cs s p ep once r = (matches_one src s p ep ≡ true) × A cs (suc s) ep r

abbrev pub AcceptsItem : Rest → List ℕ → Captures → ℕ → Item → End → Type 0
AcceptsItem A src cs s finish r = r ≡ (s, cs)
AcceptsItem A src cs s end_anchor r = (s ≡ length src) × (r ≡ (s, cs))
AcceptsItem A src cs s (open_position p) r =
    A (cs ++ record { init = s; len = at_position } ∷ []) s p r
AcceptsItem A src cs s (open_capture p) r =
    A (cs ++ record { init = s; len = unfinished } ∷ []) s p r
AcceptsItem A src cs s (close_capture p) r =
    (l : ℕ) × (last_unfinished 0 cs ≡ some l) × A (set_len cs l (bytes (s - init_of cs l))) s p r
AcceptsItem A src cs s (balance p) r =
    (t : ℕ) × (matchbalance src s (peek p) (peek (tail p)) ≡ some t) × A cs t (tail (tail p)) r
AcceptsItem A src cs s (frontier p ep) r = (at_frontier src s p ep ≡ true) × A cs s ep r
AcceptsItem A src cs s (back_reference digit p) r =
    (c : Capture) × (check_capture cs digit ≡ some c)
    × ((t : ℕ) × (match_capture src s c ≡ some t) × A cs t p r)
AcceptsItem A src cs s (single p ep) r = AcceptsRepeated A src cs s p ep (repetition ep) r
AcceptsItem A src cs s (bad x) r = ⊥

-- With the number of items bounded by the first argument.
abbrev pub Accepts : ℕ → List ℕ → Rest
Accepts zero src cs s p r = ⊥
Accepts (suc n) src cs s p r = AcceptsItem (Accepts n src) src cs s (item p) r
