-- ===== src/Matcher/Decides.antt =====
-- The matcher of src/lstrlib.c finds a match just where there is one, gives the captures back as they
-- were where it fails, and its depth of calls is bounded by the pattern's length.
use luarc.Prelude.{
  ℕ, zero, suc, ◌-◌, ◌<◌, ◌≡◌, refl, true, ◌||◌, Option, none, some, List, [], ◌∷◌, ◌++◌, length,
  inl, inr, arith, Bool-cases, ◌==◌, ==_iff, if◌then◌else◌, leb,
}
use mathlib.Core.Path.{subst}
use luarc.Classes.{peek, tail}
use luarc.Matcher.{
  close_at, max_captures, Captures, Capture, CaptureLen, unfinished, at_position, bytes, ended,
  Match, matches_one, last_unfinished, set_len, init_of, matchbalance, check_capture, match_capture,
  at_frontier, Item, finish, end_anchor, open_position, open_capture, close_capture, balance,
  frontier, single, back_reference, bad, item, Repetition, optional, star, plus, minus, once,
  repetition, max_expand, start_capture, end_capture, go_on, match_item, refer, dispatch, match,
}
use luarc.Matcher.Accepts.{Rest, AcceptsRepeated, AcceptsItem, Accepts}
use luarc.Matcher.Loops.{
  Decides, Decides-map, Decides-drop_capture, Decides-reopen, Decides-or_retry, Decides-if,
  Decides-max_expand, Decides-min_expand, Repeats,
}
use luarc.Matcher.Shorter.{IsShorter, item-IsShorter, tail_le}

module _ (call : Match) (A : Rest) (k : ℕ)
    (decided : (cs : Captures) (s : ℕ) (q : List ℕ)
      → length q < k
      → Decides (A cs s q) cs (call cs s q)) where
  Decides-match_item :
      (src : List ℕ) (cs : Captures) (s : ℕ) (p ep : List ℕ) (rep : Repetition)
      → length ep < k
      → Decides (AcceptsRepeated A src cs s p ep rep) cs (match_item call src cs s p ep rep)
  unfolding match_item
  Decides-match_item src cs s p ep optional h =
      let shorter : length (tail ep) < k = omega (arith, tail_le ep) in
      Decides-or_retry (λ r. (matches_one src s p ep ≡ true) × A cs (suc s) (tail ep) r)
        (A cs s (tail ep)) cs
        (if matches_one src s p ep then call cs (suc s) (tail ep) else ended none cs)
        (λ cs'. call cs' s (tail ep))
        (Decides-if (matches_one src s p ep) (A cs (suc s) (tail ep)) cs (call cs (suc s) (tail ep))
          (decided cs (suc s) (tail ep) shorter))
        (decided cs s (tail ep) shorter)
  Decides-match_item src cs s p ep star h =
      Decides-max_expand call A k decided src p ep s cs (omega (arith, tail_le ep))
  Decides-match_item src cs s p ep plus h =
      Decides-if (matches_one src s p ep) (Repeats call A k decided src p ep (suc s) cs) cs
        (max_expand call src cs (suc s) p ep)
        (Decides-max_expand call A k decided src p ep (suc s) cs (omega (arith, tail_le ep)))
  Decides-match_item src cs s p ep minus h =
      Decides-min_expand call A k decided src p ep s (length src - s) cs (omega (arith, tail_le ep))
        (omega arith)
  Decides-match_item src cs s p ep once h =
      Decides-if (matches_one src s p ep) (A cs (suc s) ep) cs (call cs (suc s) ep)
        (decided cs (suc s) ep h)

  Decides-go_on :
      (cs : Captures) (o : Option ℕ) (p : List ℕ)
      → length p < k
      → Decides (λ r. (t : ℕ) × (o ≡ some t) × A cs t p r) cs (go_on call cs o p)
  Decides-go_on cs none p h = (refl, λ r (t, e, a). absurd (cc e))
  Decides-go_on cs (some t) p h =
      Decides-map (A cs t p) (λ r. (u : ℕ) × (some t ≡ some u) × A cs u p r) cs (call cs t p)
        (λ r a. (t, refl, a))
        (λ r (u, e, a). let same : u ≡ t = cc in subst (λ n. A cs n p r) same a) (decided cs t p h)

  Decides-refer :
      (src : List ℕ) (cs : Captures) (s : ℕ) (p : List ℕ) (o : Option Capture)
      → length p < k
      → Decides
          (λ r.
            (c : Capture) × (o ≡ some c)
            × ((t : ℕ) × (match_capture src s c ≡ some t) × A cs t p r))
          cs
          (refer call src cs s p o)
  Decides-refer src cs s p none h = tt
  Decides-refer src cs s p (some c) h =
      Decides-map (λ r. (t : ℕ) × (match_capture src s c ≡ some t) × A cs t p r)
        (λ r.
          (d : Capture) × (some c ≡ some d)
          × ((t : ℕ) × (match_capture src s d ≡ some t) × A cs t p r))
        cs (refer call src cs s p (some c)) (λ r x. (c, refl, x))
        (λ r (d, e, x).
          let same : d ≡ c = cc in
          subst (λ (d : Capture). (t : ℕ) × (match_capture src s d ≡ some t) × A cs t p r) same x)
        (Decides-go_on cs (match_capture src s c) p h)

  Decides-start :
      (cs : Captures) (s : ℕ) (p : List ℕ) (what : CaptureLen)
      → length p < k
      → Decides
          (A (cs ++ record { init = s; len = what } ∷ []) s p)
          cs
          (start_capture call cs s p what)
  unfolding start_capture
  Decides-start cs s p what h = elim (Bool-cases (leb max_captures (length cs))) [
    | inl full ↦ rw full tt
    | inr free ↦ rw free (
        Decides-drop_capture (A (cs ++ record { init = s; len = what } ∷ []) s p) cs
          (record { init = s; len = what }) _
          (decided (cs ++ record { init = s; len = what } ∷ []) s p h))
  ]

  Decides-close_at :
      (cs : Captures) (s : ℕ) (p : List ℕ) (o : Option ℕ)
      → length p < k
      → last_unfinished 0 cs ≡ o
      → Decides
          (λ r. (l : ℕ) × (o ≡ some l) × A (set_len cs l (bytes (s - init_of cs l))) s p r)
          cs
          (close_at call cs s p o)
  Decides-close_at cs s p none h e = tt
  Decides-close_at cs s p (some l) h e =
      Decides-map (A (set_len cs l (bytes (s - init_of cs l))) s p)
        (λ r. (m : ℕ) × (some l ≡ some m) × A (set_len cs m (bytes (s - init_of cs m))) s p r) cs
        (close_at call cs s p (some l)) (λ r a. (l, refl, a))
        (λ r (m, same, a).
          let m_is : m ≡ l = cc in
          subst (λ n. A (set_len cs n (bytes (s - init_of cs n))) s p r) m_is a)
        (Decides-reopen (A (set_len cs l (bytes (s - init_of cs l))) s p) cs l
          (bytes (s - init_of cs l)) _ e (decided (set_len cs l (bytes (s - init_of cs l))) s p h))

  Decides-dispatch :
      (src : List ℕ) (cs : Captures) (s : ℕ) (it : Item)
      → IsShorter k it
      → Decides (AcceptsItem A src cs s it) cs (dispatch call src cs s it)
  unfolding dispatch
  Decides-dispatch src cs s finish h = refl
  Decides-dispatch src cs s end_anchor h = elim (Bool-cases (s == length src)) [
    | inl at_end ↦ rw at_end ((==_iff s (length src)).0 at_end, refl)
    | inr inside ↦ rw inside (refl, λ r x. ground (arith, x.0))
  ]
  Decides-dispatch src cs s (open_position p) h = Decides-start cs s p at_position h
  Decides-dispatch src cs s (open_capture p) h = Decides-start cs s p unfinished h
  Decides-dispatch src cs s (close_capture p) h =
      unfold end_capture in Decides-close_at cs s p (last_unfinished 0 cs) h refl
  Decides-dispatch src cs s (balance p) h =
      elim (Bool-cases ((peek p == 0) || (peek (tail p) == 0))) [
        | inl open_pair ↦ rw open_pair tt
        | inr pair ↦ rw pair (
            Decides-go_on cs (matchbalance src s (peek p) (peek (tail p))) (tail (tail p))
              (omega (arith, tail_le p, tail_le (tail p))))
      ]
  Decides-dispatch src cs s (frontier p ep) h =
      Decides-if (at_frontier src s p ep) (A cs s ep) cs (call cs s ep) (decided cs s ep h)
  Decides-dispatch src cs s (back_reference digit p) h =
      Decides-refer src cs s p (check_capture cs digit) h
  Decides-dispatch src cs s (single p ep) h = Decides-match_item src cs s p ep (repetition ep) h
  Decides-dispatch src cs s (bad x) h = tt

-- With fuel above the length of the pattern `match` does not run out of it, and but for an error in
-- the pattern it decides whether the pattern matches at `s`: what it finds is a match, with its
-- captures, and where it finds none there is none, and the captures are as they were.
pub match-Decides :
    (fuel : ℕ) (src : List ℕ) (cs : Captures) (s : ℕ) (p : List ℕ)
    → length p < fuel
    → Decides (Accepts fuel src cs s p) cs (match fuel src cs s p)
unfolding match
match-Decides zero src cs s p h = absurd (omega arith)
match-Decides (suc fuel) src cs s p h =
    Decides-dispatch (match fuel src) (Accepts fuel src) (length p)
      (λ cs s q lt. match-Decides fuel src cs s q (omega arith)) src cs s (item p)
      (item-IsShorter p)
