-- ===== src/Matcher/Shorter.antt =====
-- Each item of a pattern of src/lstrlib.c leads on to a shorter pattern.
use luarc.Prelude.{
  ℕ, ◌<◌, ◌≤◌, ◌≡◌, ◌≢◌, ◌⊎◌, refl, sym, ap, Bool, true, false, not, ◌&&◌, Option, none, some, List,
  [], ◌∷◌, length, inl, inr, arith, Bool-cases, Option-cases, ◌==◌, if◌then◌else◌,
}
use luarc.Classes.{
  l_esc, isdigit, ends_with_escape, peek, tail, classend, class_close, closed_set, ClassEnd,
  ends_at, malformed,
}
use luarc.Matcher.{
  Item, finish, end_anchor, open_position, open_capture, close_capture, balance, frontier, single,
  back_reference, bad, item, single_at, frontier_at,
}

-- Where the item leads to is a pattern shorter than `k`.
abbrev pub IsShorter : ℕ → Item → Type 0
IsShorter k finish = Unit {0}
IsShorter k end_anchor = Unit {0}
IsShorter k (open_position q) = length q < k
IsShorter k (open_capture q) = length q < k
IsShorter k (close_capture q) = length q < k
IsShorter k (balance q) = length q < k
IsShorter k (frontier p ep) = length ep < k
IsShorter k (single p ep) = length ep < k
IsShorter k (back_reference digit q) = length q < k
IsShorter k (bad x) = Unit {0}

pub tail_le : (p : List ℕ) → length (tail p) ≤ length p
tail_le [] = omega arith
tail_le (x ∷ p) = omega arith

tail_lt : (p : List ℕ) → peek p ≢ 0 → length (tail p) < length p
tail_lt [] h = absurd (h refl)
tail_lt (x ∷ p) h = omega arith

-- The four ends of the loop of `classend`.
close_choice :
    (a b c d : Bool) (t u q : List ℕ) (far near : Option (List ℕ))
    → (if a then none else if b then (if c then some t else far) else if d then some u else near)
      ≡ some q
    → ((some q ≡ some t) ⊎ (far ≡ some q)) ⊎ ((some q ≡ some u) ⊎ (near ≡ some q))
close_choice true b c d t u q far near h = absurd (cc)
close_choice false true true d t u q far near h = inl (inl (sym h))
close_choice false true false d t u q far near h = inl (inr h)
close_choice false false c true t u q far near h = inr (inl (sym h))
close_choice false false c false t u q far near h = inr (inr h)

class_close_lt : (p q : List ℕ) → class_close p ≡ some q → length q < length p
unfolding class_close
class_close_lt [] q h = absurd (cc)
class_close_lt (x ∷ []) q h = absurd (cc)
class_close_lt (x ∷ (y ∷ p)) q h =
    elim (close_choice (x == 0) ((x == l_esc) && not (y == 0)) (peek p == b']') (y == b']') (tail p)
      p q (class_close p) (class_close (y ∷ p)) h) [
        | inl (inl e) ↦ let same : q ≡ tail p = cc in omega (arith, tail_le p, ap length same)
        | inl (inr e) ↦ omega (arith, class_close_lt p q e)
        | inr (inl e) ↦ let same : q ≡ p = cc in omega (arith, ap length same)
        | inr (inr e) ↦ omega (arith, class_close_lt (y ∷ p) q e)
      ]

closed_set_lt : (p q : List ℕ) → closed_set (class_close p) ≡ ends_at q → length q < length p
closed_set_lt p q h = elim (Option-cases (class_close p)) [
  | inl open_set ↦ absurd (ground arith)
  | inr (r, good) ↦
      let same : r ≡ q = ground arith in omega (arith, class_close_lt p r good, ap length same)
]

classend_choice :
    (a b c d : Bool) (t u q : List ℕ) (set : ClassEnd)
    → (if a
        then (if b then malformed ends_with_escape else ends_at t)
        else if c
        then set
        else ends_at u)
      ≡ ends_at q
    → (ends_at q ≡ ends_at t) ⊎ ((set ≡ ends_at q) ⊎ (ends_at q ≡ ends_at u))
classend_choice true true c d t u q set h = absurd (cc)
classend_choice true false c d t u q set h = inl (sym h)
classend_choice false b true d t u q set h = inr (inl h)
classend_choice false b false d t u q set h = inr (inr (sym h))

classend_lt : (p q : List ℕ) → peek p ≢ 0 → classend p ≡ ends_at q → length q < length p
unfolding classend
classend_lt p q h e =
    elim (classend_choice (peek p == l_esc) (peek (tail p) == 0) (peek p == b'[') true
      (tail (tail p)) (tail p) q
      (closed_set (class_close (if peek (tail p) == b'^' then tail (tail p) else tail p))) e) [
        | inl e ↦
            let same : q ≡ tail (tail p) = cc in
            omega (arith, tail_lt p h, tail_le (tail p), ap length same)
        | inr (inl e) ↦ elim (Bool-cases (peek (tail p) == b'^')) [
          | inl caret ↦ omega (
            arith,
            tail_lt p h,
            tail_le (tail p),
            closed_set_lt (tail (tail p)) q (rw caret at e),
          )
          | inr plain ↦ omega (arith, tail_lt p h, closed_set_lt (tail p) q (rw plain at e))
        ]
        | inr (inr e) ↦ let same : q ≡ tail p = cc in omega (arith, tail_lt p h, ap length same)
      ]

IsShorter-if :
    (k : ℕ) (b : Bool) (x y : Item)
    → (b ≡ true → IsShorter k x)
    → (b ≡ false → IsShorter k y)
    → IsShorter k (if b then x else y)
IsShorter-if k true x y hx hy = hx refl
IsShorter-if k false x y hx hy = hy refl

IsShorter-single_at :
    (k : ℕ) (p : List ℕ) (c : ClassEnd)
    → ((q : List ℕ) → c ≡ ends_at q → length q < k)
    → IsShorter k (single_at p c)
IsShorter-single_at k p (ends_at q) h = h q refl
IsShorter-single_at k p (malformed x) h = tt

IsShorter-frontier_at :
    (k : ℕ) (p : List ℕ) (c : ClassEnd)
    → ((q : List ℕ) → c ≡ ends_at q → length q < k)
    → IsShorter k (frontier_at p c)
IsShorter-frontier_at k p (ends_at q) h = h q refl
IsShorter-frontier_at k p (malformed x) h = tt

pub item-IsShorter : (p : List ℕ) → IsShorter (length p) (item p)
unfolding item
item-IsShorter p =
    let k = length p in
    let after_one : peek p ≢ 0 → length (tail p) < k = tail_lt p in
    let after_two : peek p ≢ 0 → length (tail (tail p)) < k =
      λ h. omega (arith, tail_lt p h, tail_le (tail p)) in
    let dflt : peek p ≢ 0 → IsShorter k (single_at p (classend p)) =
      λ h. IsShorter-single_at k p (classend p) (λ q. classend_lt p q h) in
    IsShorter-if k (peek p == b'(') _ _
      (λ e.
        IsShorter-if k (peek (tail p) == b')') _ _ (λ _. after_two (ground arith))
          (λ _. after_one (ground arith)))
      (λ _.
        IsShorter-if k (peek p == b')') _ _ (λ e. after_one (ground arith))
          (λ _.
            IsShorter-if k (peek p == l_esc) _ _
              (λ e.
                IsShorter-if k (peek (tail p) == b'b') _ _ (λ _. after_two (ground arith))
                  (λ _.
                    IsShorter-if k (peek (tail p) == b'f') _ _
                      (λ _.
                        IsShorter-if k (peek (tail (tail p)) == b'[') _ _
                          (λ set.
                            IsShorter-frontier_at k (tail (tail p)) (classend (tail (tail p)))
                              (λ q end. omega (
                                arith,
                                after_two (ground arith),
                                classend_lt (tail (tail p)) q (ground arith) end,
                              )))
                          (λ _. tt))
                      (λ _.
                        IsShorter-if k (isdigit (peek (tail p))) _ _ (λ _. after_two (ground arith))
                          (λ _. dflt (ground arith)))))
              (λ _.
                IsShorter-if k (peek p == 0) _ _ (λ _. tt)
                  (λ some_byte.
                    IsShorter-if k (peek p == b'$') _ _
                      (λ _.
                        IsShorter-if k (peek (tail p) == 0) _ _ (λ _. tt)
                          (λ _. dflt (ground arith)))
                      (λ _. dflt (ground arith))))))
