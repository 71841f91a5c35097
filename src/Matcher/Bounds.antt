-- ===== src/Matcher/Bounds.antt =====
-- A match of src/lstrlib.c ends in the subject, and not before its start.
use luarc.Prelude.{
  ℕ, zero, suc, ◌+◌, ◌-◌, ◌<◌, ◌≤◌, ◌≡◌, refl, ap, some, List, [], ◌∷◌, length, drop, inl, inr,
  arith, ltb→lt, Bool-cases, ltb,
}
use luarc.Classes.{peek, tail}
use luarc.Matcher.{
  Captures, Capture, balance_loop, matchbalance, match_capture, Item, finish, end_anchor,
  open_position, open_capture, close_capture, balance, frontier, single, back_reference, bad, item,
  Repetition, optional, star, plus, minus, once, repetition,
}
use luarc.Matcher.Loops.{matches_one-lt}
use luarc.Matcher.Accepts.{Run, End, Rest, AcceptsRepeated, AcceptsItem, Accepts}

-- Positions of the subject from `s` on.
abbrev pub IsFrom : List ℕ → ℕ → ℕ → Type 0
IsFrom src s e = (s ≤ e) × (e ≤ length src)

length-drop : (xs : List ℕ) (n : ℕ) → n ≤ length xs → length (drop n xs) + n ≡ length xs
length-drop xs zero h = omega arith
length-drop [] (suc n) h = absurd (omega arith)
length-drop (x ∷ xs) (suc n) h = omega (arith, length-drop xs n (omega arith))

balance_loop_bounds :
    (b e cont s t : ℕ) (rest : List ℕ)
    → balance_loop b e cont s rest ≡ some t
    → (s < t) × (t ≤ s + length rest)
unfolding balance_loop
balance_loop_bounds b e cont s t [] h = absurd (cc)
balance_loop_bounds b e cont s t (x ∷ rest) h = ground (
  arith,
  balance_loop_bounds b e (cont - 1) (suc s) t rest,
  balance_loop_bounds b e (suc cont) (suc s) t rest,
  balance_loop_bounds b e cont (suc s) t rest,
)

drop-all : (xs : List ℕ) (n : ℕ) → length xs ≤ n → drop n xs ≡ []
drop-all [] zero h = refl
drop-all (x ∷ xs) zero h = absurd (omega arith)
drop-all [] (suc n) h = refl
drop-all (x ∷ xs) (suc n) h = drop-all xs n (omega arith)

matchbalance_bounds :
    (src : List ℕ) (s b e t : ℕ) → matchbalance src s b e ≡ some t → IsFrom src s t
unfolding matchbalance
matchbalance_bounds src s b e t h =
    let loop : balance_loop b e 1 (suc s) (drop (suc s) src) ≡ some t = ground arith in
    let (after, before) = balance_loop_bounds b e 1 (suc s) t (drop (suc s) src) loop in
    elim (Bool-cases (ltb s (length src))) [
      | inl inside ↦
          (omega arith, omega (arith, length-drop src (suc s) (ltb→lt s (length src) inside)))
      | inr outside ↦
          let past : drop (suc s) src ≡ [] = drop-all src (suc s) (ground arith) in
          absurd (omega (arith, ap length past))
    ]

match_capture_bounds :
    (src : List ℕ) (s t : ℕ) (c : Capture)
    → s ≤ length src
    → match_capture src s c ≡ some t
    → IsFrom src s t
unfolding match_capture
match_capture_bounds src s t c inside h = ground arith

Run_bounds : (src p ep : List ℕ) (s k : ℕ) → s ≤ length src → Run src p ep s k → s + k ≤ length src
Run_bounds src p ep s zero inside run = omega arith
Run_bounds src p ep s (suc k) inside run =
    omega (arith, matches_one-lt src p ep (s + k) (run k (omega arith)))

module _ (src : List ℕ) (A : Rest)
    (bounds : (cs : Captures) (s : ℕ) (q : List ℕ) (r : End)
      → s ≤ length src
      → A cs s q r
      → IsFrom src s r.0) where
  AcceptsRepeated-bounds :
      (cs : Captures) (s : ℕ) (p ep : List ℕ) (rep : Repetition) (r : End)
      → s ≤ length src
      → AcceptsRepeated A src cs s p ep rep r
      → IsFrom src s r.0
  AcceptsRepeated-bounds cs s p ep optional r h (inl (one, a)) =
      omega (arith, bounds cs (suc s) (tail ep) r (omega (arith, matches_one-lt src p ep s one)) a)
  AcceptsRepeated-bounds cs s p ep optional r h (inr a) = bounds cs s (tail ep) r h a
  AcceptsRepeated-bounds cs s p ep star r h (k, run, a) =
      omega (arith, bounds cs (s + k) (tail ep) r (Run_bounds src p ep s k h run) a)
  AcceptsRepeated-bounds cs s p ep plus r h (one, (k, run, a)) = omega (
    arith,
    bounds cs (suc s + k) (tail ep) r
        (Run_bounds src p ep (suc s) k (omega (arith, matches_one-lt src p ep s one)) run) a,
  )
  AcceptsRepeated-bounds cs s p ep minus r h (k, run, a) =
      omega (arith, bounds cs (s + k) (tail ep) r (Run_bounds src p ep s k h run) a)
  AcceptsRepeated-bounds cs s p ep once r h (one, a) =
      omega (arith, bounds cs (suc s) ep r (omega (arith, matches_one-lt src p ep s one)) a)

  AcceptsItem-bounds :
      (cs : Captures) (s : ℕ) (it : Item) (r : End)
      → s ≤ length src
      → AcceptsItem A src cs s it r
      → IsFrom src s r.0
  AcceptsItem-bounds cs s finish r h e = omega (arith, ap (λ (x : End). x.0) e)
  AcceptsItem-bounds cs s end_anchor r h (_, e) = omega (arith, ap (λ (x : End). x.0) e)
  AcceptsItem-bounds cs s (open_position p) r h a = bounds _ s p r h a
  AcceptsItem-bounds cs s (open_capture p) r h a = bounds _ s p r h a
  AcceptsItem-bounds cs s (close_capture p) r h (l, e, a) = bounds _ s p r h a
  AcceptsItem-bounds cs s (balance p) r h (t, e, a) =
      let from = matchbalance_bounds src s (peek p) (peek (tail p)) t e in
      omega (arith, bounds cs t (tail (tail p)) r from.1 a)
  AcceptsItem-bounds cs s (frontier p ep) r h (e, a) = bounds cs s ep r h a
  AcceptsItem-bounds cs s (back_reference digit p) r h (c, e, (t, e', a)) =
      let from = match_capture_bounds src s t c h e' in omega (arith, bounds cs t p r from.1 a)
  AcceptsItem-bounds cs s (single p ep) r h a =
      AcceptsRepeated-bounds cs s p ep (repetition ep) r h a
  AcceptsItem-bounds cs s (bad x) r h a = absurd a

pub Accepts_bounds :
    (n : ℕ) (src : List ℕ) (cs : Captures) (s : ℕ) (p : List ℕ) (r : End)
    → s ≤ length src
    → Accepts n src cs s p r
    → IsFrom src s r.0
Accepts_bounds zero src cs s p r h a = absurd a
Accepts_bounds (suc n) src cs s p r h a =
    AcceptsItem-bounds src (Accepts n src) (λ cs s q r. Accepts_bounds n src cs s q r) cs s (item p)
      r h a
