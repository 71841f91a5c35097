-- ===== src/Find/Gsub.antt =====
-- The loop of `str_gsub` of src/lstrlib.c: it ends, and what it gives back where each match is replaced
-- by its own text.
use luarc.Prelude.{
  ℕ, zero, suc, ◌+◌, ◌-◌, ◌<◌, ◌≤◌, ◌≡◌, refl, ap, ◌∙◌, Bool, true, not, ◌&&◌, Option, none, some,
  List, [], ◌∷◌, ◌++◌, length, take, drop, arith, ◌==◌, ltb, ltb→lt, Bool-cases, inl, inr,
  if◌then◌else◌,
}
use mathlib.Core.List.{append_assoc}
use mathlib.Core.Path.{subst}
use luarc.Classes.{peek, tail}
use luarc.Matcher.{Captures, Outcome, ended, err, out_of_fuel, match, at}
use luarc.Matcher.Accepts.{Accepts}
use luarc.Matcher.Loops.{Decides}
use luarc.Matcher.Decides.{match-Decides}
use luarc.Matcher.Bounds.{Accepts_bounds}
use luarc.Find.{
  Substituted, substituted, gsub_error, gsub_spent, Step, gsub_move, gsub_step, gsub_round,
  gsub_loop, str_gsub,
}

-- The replacement of each match by itself, as by "%0".
abbrev pub KeepsMatches : List ℕ → (Captures → ℕ → ℕ → List ℕ) → Type 0
KeepsMatches text add_value =
    (cs : Captures) (s e : ℕ) → add_value cs s e ≡ take (e - s) (drop s text)

-- A result with the text as it was and no more substitutions than asked for, or an error in the
-- pattern.
abbrev pub Unchanged : List ℕ → (max_s : ℕ) → Substituted → Type 0
Unchanged text max_s (substituted out n) = (out ≡ text) × (n ≤ max_s)
Unchanged text max_s (gsub_error x) = Unit {0}
Unchanged text max_s gsub_spent = ⊥

take-zero : (xs : List ℕ) (n : ℕ) → n ≡ 0 → take n xs ≡ []
take-zero xs n e = rw e

take-drop :
    (xs : List ℕ) (s e : ℕ)
    → s ≤ e
    → e ≤ length xs
    → take (e - s) (drop s xs) ++ drop e xs ≡ drop s xs
take-drop xs zero zero h in_xs = refl
take-drop [] s (suc e) h in_xs = absurd (omega arith)
take-drop xs (suc s) zero h in_xs = absurd (omega arith)
take-drop (x ∷ xs) zero (suc e) h in_xs =
    let same : suc e - 0 ≡ suc (e - 0) = omega arith in
    rw same (ap (λ l. x ∷ l) (take-drop xs zero e (omega arith) (omega arith)))
take-drop (x ∷ xs) (suc s) (suc e) h in_xs =
    let same : suc e - suc s ≡ e - s = omega arith in
    rw same (take-drop xs s e (omega arith) (omega arith))

one_byte : (xs : List ℕ) (s : ℕ) → s < length xs → at xs s ∷ drop (suc s) xs ≡ drop s xs
one_byte [] s h = absurd (omega arith)
one_byte (x ∷ xs) zero h = refl
one_byte (x ∷ xs) (suc s) h = one_byte xs s (omega arith)

-- What a step does to the text that is left.
record Keeps (text : List ℕ) (src n : ℕ) (st : Step) : Type 0 where
  kept : st.added ++ drop st.next text ≡ drop src text
  inside : st.next ≤ length text
  onward : st.more ≡ true → src < st.next
  counted : st.count ≡ n

gsub_move-Keeps :
    (text : List ℕ) (src e n : ℕ)
    → src ≤ e
    → e ≤ length text
    → Keeps text src n (gsub_move text (take (e - src) (drop src text)) src e n)
gsub_move-Keeps text src e n le inside = elim (Bool-cases (ltb src e)) [
  | inl past ↦ rw past record {
    kept = take-drop text src e le inside;
    inside = inside;
    onward = λ _. ground arith;
    counted = refl;
  }
  | inr empty ↦ elim (Bool-cases (ltb src (length text))) [
    | inl before ↦
        rw (empty, before, take-zero (drop src text) (e - src) (ground arith))
          record {
            kept = one_byte text src (ground arith);
            inside = ground arith;
            onward = λ _. omega arith;
            counted = refl;
          }
    | inr at_end ↦
        rw (empty, at_end, take-zero (drop src text) (e - src) (ground arith))
          record { kept = refl; inside = omega arith; onward = λ h. absurd (cc h); counted = refl }
  ]
]

module _ (add_value : Captures → ℕ → ℕ → List ℕ) (text p : List ℕ) (anchor : Bool) (max_s : ℕ)
    (keeps : KeepsMatches text add_value) where
  gsub_step-Keeps :
      (src n : ℕ) (o : Option ℕ) (cs : Captures)
      → src ≤ length text
      → n < max_s
      → Decides (Accepts (suc (length p)) text [] src p) [] (ended o cs)
      → (m : ℕ) × (m ≤ max_s) × Keeps text src m (gsub_step add_value text src n o cs)
  gsub_step-Keeps src n (some e) cs le more found =
      let (after, inside) = Accepts_bounds (suc (length p)) text [] src p (e, cs) le found in
      (suc n, omega arith, rw (keeps cs src e) (gsub_move-Keeps text src e (suc n) after inside))
  gsub_step-Keeps src n none cs le more found = (
    n,
    omega arith,
    subst (λ added. Keeps text src n (gsub_move text added src src n))
        (take-zero (drop src text) (src - src) (omega arith))
        (gsub_move-Keeps text src src n (omega arith) le),
  )

  gsub_round-Unchanged :
      (go : ℕ → ℕ → List ℕ → Substituted) (src n : ℕ) (acc : List ℕ) (o : Outcome)
      → src ≤ length text
      → n < max_s
      → acc ++ drop src text ≡ text
      → Decides (Accepts (suc (length p)) text [] src p) [] o
      → ((src' n' : ℕ) (acc' : List ℕ)
          → src < src'
          → src' ≤ length text
          → n' ≤ max_s
          → acc' ++ drop src' text ≡ text
          → Unchanged text max_s (go src' n' acc'))
      → Unchanged text max_s (gsub_round add_value text anchor go src n acc o)
  gsub_round-Unchanged go src n acc (err x) le more whole found next = tt
  gsub_round-Unchanged go src n acc out_of_fuel le more whole found next = found
  gsub_round-Unchanged go src n acc (ended o cs) le more whole found next =
      let (m, m_le, k) = gsub_step-Keeps src n o cs le more found in
      let st = gsub_step add_value text src n o cs in
      let whole' : (acc ++ st.added) ++ drop st.next text ≡ text =
        append_assoc acc st.added (drop st.next text) ∙ ap (λ l. acc ++ l) k.kept ∙ whole in
      elim (Bool-cases (st.more && not anchor)) [
        | inl on ↦ rw on (
            next st.next st.count (acc ++ st.added) (k.onward (ground arith)) k.inside
              (omega (arith, k.counted)) whole')
        | inr stop ↦ rw stop (whole', omega (arith, k.counted))
      ]

  gsub_loop-Unchanged :
      (fuel src n : ℕ) (acc : List ℕ)
      → src ≤ length text
      → length text < fuel + src
      → n ≤ max_s
      → acc ++ drop src text ≡ text
      → 0 < fuel
      → Unchanged text max_s (gsub_loop add_value text p anchor max_s fuel src n acc)
  unfolding gsub_loop
  gsub_loop-Unchanged zero src n acc le enough n_le whole some_fuel = absurd (omega arith)
  gsub_loop-Unchanged (suc fuel) src n acc le enough n_le whole some_fuel =
      elim (Bool-cases (ltb n max_s)) [
        | inl more ↦ rw more (
            gsub_round-Unchanged (gsub_loop add_value text p anchor max_s fuel) src n acc
              (match (suc (length p)) text [] src p) le (ltb→lt n max_s more) whole
              (match-Decides (suc (length p)) text [] src p (omega arith))
              (λ src' n' acc' lt le' n_le' whole'.
                gsub_loop-Unchanged fuel src' n' acc' le' (omega arith) n_le' whole' (omega arith)))
        | inr full ↦ rw full (whole, n_le)
      ]

-- Where every match is replaced by its own text, `str_gsub` ends within its rounds, and gives the text
-- back, with no more substitutions than asked for, whatever the pattern is, but for an error in it.
pub str_gsub-Unchanged :
    (add_value : Captures → ℕ → ℕ → List ℕ) (text p : List ℕ) (max_s : ℕ)
    → KeepsMatches text add_value
    → Unchanged text max_s (str_gsub add_value text p max_s)
unfolding str_gsub
str_gsub-Unchanged add_value text p max_s keeps =
    gsub_loop-Unchanged add_value text (if peek p == b'^' then tail p else p) (peek p == b'^') max_s
      keeps (length text + 2) 0 0 [] (omega arith) (omega arith) (omega arith) refl (omega arith)
