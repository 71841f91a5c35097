-- ===== src/Matcher/Loops.antt =====
-- The loops of the matcher of src/lstrlib.c, and the undoing of captures, where the calls of `match`
-- decide what they are asked.
use luarc.Prelude.{
  ℕ, zero, suc, ◌+◌, ◌-◌, ◌<◌, ◌≤◌, ◌≡◌, ◌⊎◌, refl, ap, Bool, true, false, none, some, List, [],
  ◌∷◌, ◌++◌, length, take, inl, inr, arith, Bool-cases, Option-cases, ◌==◌, ==_iff, if◌then◌else◌,
  length-append,
}
use mathlib.Core.Path.{subst}
use luarc.Classes.{tail}
use luarc.Matcher.{
  Captures, Capture, CaptureLen, unfinished, at_position, bytes, Outcome, ended, err, out_of_fuel,
  Match, matches_one, last_unfinished, is_unfinished, set_len, expand_count, or_retry, expand_down,
  max_expand, min_expand, drop_capture, reopen,
}
use luarc.Matcher.Accepts.{Run, End, Rest}

-- An outcome for the question whether there is an end with `P`.
abbrev pub Decides : (End → Type 0) → Captures → Outcome → Type 0
Decides P cs (ended (some e) cs') = P (e, cs')
Decides P cs (ended none cs') = (cs' ≡ cs) × ((r : End) → P r → ⊥)
Decides P cs (err x) = Unit {0}
Decides P cs out_of_fuel = ⊥

pub Decides-map :
    (P Q : End → Type 0) (cs : Captures) (o : Outcome)
    → ((r : End) → P r → Q r)
    → ((r : End) → Q r → P r)
    → Decides P cs o
    → Decides Q cs o
Decides-map P Q cs (ended (some e) cs') to back h = to (e, cs') h
Decides-map P Q cs (ended none cs') to back h = (h.0, λ r q. h.1 r (back r q))
Decides-map P Q cs (err x) to back h = tt
Decides-map P Q cs out_of_fuel to back h = h

pub Decides-none :
    (P : End → Type 0) (cs : Captures) → ((r : End) → P r → ⊥) → Decides P cs (ended none cs)
Decides-none P cs h = (refl, h)

take-length : (cs ds : Captures) → take (length cs) (cs ++ ds) ≡ cs
take-length [] ds = refl
take-length (x ∷ cs) ds = ap (λ l. x ∷ l) (take-length cs ds)

take-snoc : (cs : Captures) (c : Capture) → take (length (cs ++ c ∷ []) - 1) (cs ++ c ∷ []) ≡ cs
take-snoc cs c =
    let size : length cs ≡ length (cs ++ c ∷ []) - 1 =
      omega (arith, length-append {0} cs (c ∷ [])) in
    subst (λ n. take n (cs ++ c ∷ []) ≡ cs) size (take-length cs (c ∷ []))

pub Decides-drop_capture :
    (P : End → Type 0) (cs : Captures) (c : Capture) (o : Outcome)
    → Decides P (cs ++ c ∷ []) o
    → Decides P cs (drop_capture o)
Decides-drop_capture P cs c (ended (some e) cs') h = h
Decides-drop_capture P cs c (ended none cs') h = (rw h.0 (take-snoc cs c), h.1)
Decides-drop_capture P cs c (err x) h = tt
Decides-drop_capture P cs c out_of_fuel h = h

last_unfinished_le : (cs : Captures) (level m : ℕ) → last_unfinished level cs ≡ some m → level ≤ m
unfolding last_unfinished
last_unfinished_le [] level m h = absurd (cc)
last_unfinished_le (c ∷ cs) level m h = ground (arith, last_unfinished_le cs (suc level) m)

unfinished_len : (n : CaptureLen) → is_unfinished n ≡ true → n ≡ unfinished
unfinished_len unfinished h = refl
unfinished_len at_position h = cc
unfinished_len (bytes n) h = cc

-- Closing the capture that was found and opening it again leaves the captures as they were.
reopened :
    (cs : Captures) (level l : ℕ) (n : CaptureLen)
    → last_unfinished level cs ≡ some (level + l)
    → set_len (set_len cs l n) l unfinished ≡ cs
unfolding last_unfinished
reopened [] level l n h = absurd (cc)
reopened (c ∷ cs) level zero n h = elim (Option-cases (last_unfinished (suc level) cs)) [
  | inl nothing ↦
      let open_here : is_unfinished c.len ≡ true = ground arith in
      let len : c.len ≡ unfinished = unfinished_len c.len open_here in ground arith
  | inr (m, later) ↦ absurd (ground (arith, last_unfinished_le cs (suc level) m))
]
reopened (c ∷ cs) level (suc l) n h = ap (λ l. c ∷ l) (reopened cs (suc level) l n (ground arith))

pub Decides-reopen :
    (P : End → Type 0) (cs : Captures) (l : ℕ) (n : CaptureLen) (o : Outcome)
    → last_unfinished 0 cs ≡ some l
    → Decides P (set_len cs l n) o
    → Decides P cs (reopen l o)
Decides-reopen P cs l n (ended (some e) cs') h d = d
Decides-reopen P cs l n (ended none cs') h d =
    (rw d.0 (reopened cs 0 l n (rw h (ap some (omega arith)))), d.1)
Decides-reopen P cs l n (err x) h d = tt
Decides-reopen P cs l n out_of_fuel h d = d

module _ (src p ep : List ℕ) where
  expand_count_more :
      (s left : ℕ)
      → matches_one src s p ep ≡ true
      → expand_count src p ep s (suc left) ≡ suc (expand_count src p ep (suc s) left)
  unfolding expand_count
  expand_count_more s left h = rw h

  expand_count_stop :
      (s left : ℕ) → matches_one src s p ep ≡ false → expand_count src p ep s (suc left) ≡ 0
  unfolding expand_count
  expand_count_stop s left h = rw h

  expand_count_end : (s : ℕ) → expand_count src p ep s zero ≡ 0
  unfolding expand_count
  expand_count_end s = refl

  pub matches_one-lt : (s : ℕ) → matches_one src s p ep ≡ true → s < length src
  unfolding matches_one
  matches_one-lt s h = ground arith

  Run-first : (s k : ℕ) → Run src p ep s (suc k) → matches_one src s p ep ≡ true
  Run-first s k run = subst (λ n. matches_one src n p ep ≡ true) (omega arith) (run 0 (omega arith))

  Run-rest : (s k : ℕ) → Run src p ep s (suc k) → Run src p ep (suc s) k
  Run-rest s k run j h =
      subst (λ n. matches_one src n p ep ≡ true) (omega arith) (run (suc j) (omega arith))

  Run-cons :
      (s k : ℕ) → matches_one src s p ep ≡ true → Run src p ep (suc s) k → Run src p ep s (suc k)
  Run-cons s k one run zero h = subst (λ n. matches_one src n p ep ≡ true) (omega arith) one
  Run-cons s k one run (suc j) h =
      subst (λ n. matches_one src n p ep ≡ true) (omega arith) (run j (omega arith))

  -- How often the item matches from `s` on.
  expand_count-Run : (s left : ℕ) → Run src p ep s (expand_count src p ep s left)
  expand_count-Run s zero j h = absurd (omega (arith, expand_count_end s))
  expand_count-Run s (suc left) zero h = elim (Bool-cases (matches_one src s p ep)) [
    | inl one ↦ subst (λ n. matches_one src n p ep ≡ true) (omega arith) one
    | inr stop ↦ absurd (omega (arith, expand_count_stop s left stop))
  ]
  expand_count-Run s (suc left) (suc j) h = elim (Bool-cases (matches_one src s p ep)) [
    | inl one ↦
        subst (λ n. matches_one src n p ep ≡ true) (omega arith)
          (expand_count-Run (suc s) left j (omega (arith, expand_count_more s left one)))
    | inr stop ↦ absurd (omega (arith, expand_count_stop s left stop))
  ]

  expand_count-max :
      (s left k : ℕ) → length src ≤ s + left → Run src p ep s k → k ≤ expand_count src p ep s left
  expand_count-max s left zero bound run = omega arith
  expand_count-max s zero (suc k) bound run =
      absurd (omega (arith, matches_one-lt s (Run-first s k run)))
  expand_count-max s (suc left) (suc k) bound run = omega (
    arith,
    expand_count_more s left (Run-first s k run),
    expand_count-max (suc s) left k (omega arith) (Run-rest s k run),
  )

pub Decides-or_retry :
    (P Q : End → Type 0) (cs : Captures) (o : Outcome) (try : Captures → Outcome)
    → Decides P cs o
    → Decides Q cs (try cs)
    → Decides (λ r. P r ⊎ Q r) cs (or_retry o try)
Decides-or_retry P Q cs (ended (some e) cs') try d t = inl d
Decides-or_retry P Q cs (ended none cs') try d t = rw d.0 (
    Decides-map Q (λ r. P r ⊎ Q r) cs (try cs) (λ r q. inr q)
      (λ r e. elim e [ inl p ↦ absurd (d.1 r p) | inr q ↦ q ]) t)
Decides-or_retry P Q cs (err x) try d t = tt
Decides-or_retry P Q cs out_of_fuel try d t = absurd d

-- A test before a question.
pub Decides-if :
    (b : Bool) (P : End → Type 0) (cs : Captures) (o : Outcome)
    → Decides P cs o
    → Decides (λ r. (b ≡ true) × P r) cs (if b then o else ended none cs)
Decides-if true P cs o d =
    Decides-map P (λ r. (true ≡ true) × P r) cs o (λ r p. (refl, p)) (λ r p. p.1) d
Decides-if false P cs o d = (refl, λ r p. absurd (cc (p.0)))

module _ (call : Match) (A : Rest) (k : ℕ)
    (decided : (cs : Captures) (s : ℕ) (q : List ℕ)
      → length q < k
      → Decides (A cs s q) cs (call cs s q)) where
  abbrev pub Down : ℕ → List ℕ → ℕ → Captures → End → Type 0
  Down s ep i cs r = (j : ℕ) × (j ≤ i) × A cs (s + j) (tail ep) r

  abbrev pub Repeats : List ℕ → (p ep : List ℕ) → ℕ → Captures → End → Type 0
  Repeats src p ep s cs r = (j : ℕ) × Run src p ep s j × A cs (s + j) (tail ep) r

  Decides-expand_down :
      (s : ℕ) (ep : List ℕ) (i : ℕ) (cs : Captures)
      → length (tail ep) < k
      → Decides (Down s ep i cs) cs (expand_down call s ep i cs)
  unfolding expand_down
  Decides-expand_down s ep zero cs h =
      let same : s ≡ s + 0 = omega arith in
      Decides-map (A cs s (tail ep)) _ cs (call cs s (tail ep))
        (λ r a. (0, omega arith, subst (λ n. A cs n (tail ep) r) same a))
        (λ r a. subst (λ n. A cs n (tail ep) r) (omega arith) a.2) (decided cs s (tail ep) h)
  Decides-expand_down s ep (suc i) cs h =
      Decides-map (λ r. A cs (s + suc i) (tail ep) r ⊎ Down s ep i cs r) (Down s ep (suc i) cs) cs
        (expand_down call s ep (suc i) cs)
        (λ r e. elim e [ inl a ↦ (suc i, omega arith, a) | inr (j, le, a) ↦ (j, omega arith, a) ])
        (λ r (j, le, a). elim (Bool-cases (j == suc i)) [
          | inl top ↦ inl (subst (λ n. A cs (s + n) (tail ep) r) ((==_iff _ _).0 top) a)
          | inr lower ↦ inr (j, ground arith, a)
        ])
        (Decides-or_retry (A cs (s + suc i) (tail ep)) (Down s ep i cs) cs
          (call cs (s + suc i) (tail ep)) (expand_down call s ep i)
          (decided cs (s + suc i) (tail ep) h) (Decides-expand_down s ep i cs h))

  pub Decides-max_expand :
      (src p ep : List ℕ) (s : ℕ) (cs : Captures)
      → length (tail ep) < k
      → Decides (Repeats src p ep s cs) cs (max_expand call src cs s p ep)
  unfolding max_expand
  Decides-max_expand src p ep s cs h =
      let n = expand_count src p ep s (length src - s) in
      Decides-map (Down s ep n cs) (Repeats src p ep s cs) cs (max_expand call src cs s p ep)
        (λ r (j, le, a).
          (j, λ i lt. expand_count-Run src p ep s (length src - s) i (omega arith), a))
        (λ r (j, run, a). (j, expand_count-max src p ep s (length src - s) j (omega arith) run, a))
        (Decides-expand_down s ep n cs h)

  Repeats-first :
      (src p ep : List ℕ) (s : ℕ) (cs : Captures) (r : End) (j : ℕ)
      → Run src p ep s j
      → A cs (s + j) (tail ep) r
      → A cs s (tail ep) r ⊎ ((matches_one src s p ep ≡ true) × Repeats src p ep (suc s) cs r)
  Repeats-first src p ep s cs r zero run a = inl (subst (λ n. A cs n (tail ep) r) (omega arith) a)
  Repeats-first src p ep s cs r (suc j) run a = inr (
    Run-first src p ep s j run,
    (j, Run-rest src p ep s j run, subst (λ n. A cs n (tail ep) r) (omega arith) a),
  )

  pub Decides-min_expand :
      (src p ep : List ℕ) (s left : ℕ) (cs : Captures)
      → length (tail ep) < k
      → length src ≤ s + left
      → Decides (Repeats src p ep s cs) cs (min_expand call src p ep s left cs)
  unfolding min_expand
  Decides-min_expand src p ep s zero cs h bound =
      let same : s ≡ s + 0 = omega arith in
      Decides-map (A cs s (tail ep)) (Repeats src p ep s cs) cs (call cs s (tail ep))
        (λ r a. (0, λ j lt. absurd (omega arith), subst (λ n. A cs n (tail ep) r) same a))
        (λ r (j, run, a).
          let none_left : j ≤ 0 =
            omega (arith, expand_count_end src p ep s, expand_count-max src p ep s 0 j bound run) in
          subst (λ n. A cs n (tail ep) r) (omega arith) a)
        (decided cs s (tail ep) h)
  Decides-min_expand src p ep s (suc left) cs h bound =
      Decides-map
        (λ r.
          A cs s (tail ep) r ⊎ ((matches_one src s p ep ≡ true) × Repeats src p ep (suc s) cs r))
        (Repeats src p ep s cs) cs (min_expand call src p ep s (suc left) cs)
        (λ r e. elim e [
          | inl a ↦
              (0, λ j lt. absurd (omega arith), subst (λ n. A cs n (tail ep) r) (omega arith) a)
          | inr (one, (j, run, a)) ↦ (
            suc j,
            Run-cons src p ep s j one run,
            subst (λ n. A cs n (tail ep) r) (omega arith) a,
          )
        ])
        (λ r (j, run, a). Repeats-first src p ep s cs r j run a)
        (Decides-or_retry (A cs s (tail ep))
          (λ r. (matches_one src s p ep ≡ true) × Repeats src p ep (suc s) cs r) cs
          (call cs s (tail ep)) _ (decided cs s (tail ep) h)
          (Decides-if (matches_one src s p ep) (Repeats src p ep (suc s) cs) cs
            (min_expand call src p ep (suc s) left cs)
            (Decides-min_expand src p ep (suc s) left cs h (omega arith))))
