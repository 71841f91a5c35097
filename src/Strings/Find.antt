-- ===== src/Strings/Find.antt =====
-- The search of a chain in `luaS_newlstr` (src/lstring.c).
use luarc.Prelude.{
  ℕ, ◌≤◌, ◌≡◌, refl, true, false, inl, inr, Option, none, some, List, [], ◌∷◌, ◌==◌, if◌then◌else◌,
  Bool-cases, All, arith,
}
use luarc.Object.{Ptr}
use luarc.Chunk.{Str, str_eq}
use luarc.Strings.{TString, isdead, changewhite, find}
use luarc.Strings.Rehash.{over}
use luarc.Strings.Placed.{IsAt, of_bytes, at}

-- A measure that does not look at the mark bits.
abbrev pub IgnoresMarks : (TString → ℕ) → Type 0
IgnoresMarks f = (s : TString) → f (changewhite s) ≡ f s

-- The chain has no string with these bytes; or it has one at the address that is found, and the
-- chain that is left has the same strings but for a colour.
pub data Looked (str : Str) (c : List TString) : Option (Ptr × List TString) → Type 0 where
  missing : over (of_bytes str) c ≡ 0 → Looked str c none
  met :
      {q : Ptr} {c' : List TString}
      → 1 ≤ over (at q str) c
      → ((f : TString → ℕ) → IgnoresMarks f → over f c' ≡ over f c)
      → ((size i : ℕ) → All (IsAt size i) c → All (IsAt size i) c')
      → Looked str c (some (q, c'))

abbrev revived : ℕ → TString → TString
revived w s = if isdead w s then changewhite s else s

revived-ignored : (w : ℕ) (f : TString → ℕ) (s : TString) → IgnoresMarks f → f (revived w s) ≡ f s
revived-ignored w f s ignores = elim (Bool-cases (isdead w s)) [
  | inl dead ↦ rw (dead) (ignores s)
  | inr alive ↦ rw (alive) refl
]

revived-IsAt : (w : ℕ) (s : TString) (size i : ℕ) → IsAt size i s → IsAt size i (revived w s)
revived-IsAt w s size i h = elim (Bool-cases (isdead w s)) [
  | inl dead ↦ rw (dead) h
  | inr alive ↦ rw (alive) h
]

next-Looked :
    (str : Str) (s : TString) (ss : List TString) (o : Option (Ptr × List TString))
    → str_eq s.bytes str ≡ false
    → Looked str ss o
    → Looked str (s ∷ ss) (elim o as (λ _. Option (Ptr × List TString)) [
      | none ↦ none
      | some (p, ss') ↦ some (p, s ∷ ss')
    ])
next-Looked str s ss _ other (missing h) = missing (ground (arith, h))
next-Looked str s ss _ other (met {q} {c'} there same placed) =
    met (omega (arith, there)) (λ f ignores. omega (arith, same f ignores))
      (λ size i h. (h.0, placed size i h.1))

pub find-Looked : (w : ℕ) (str : Str) (c : List TString) → Looked str c (find w str c)
unfolding find
find-Looked w str [] = missing refl
find-Looked w str (s ∷ ss) = elim (Bool-cases (str_eq s.bytes str)) [
  | inl same ↦
      let self : (s.ptr == s.ptr) ≡ true = ground arith in
      rw (same) (
        met (rw (self, same) (omega arith))
          (λ f ignores. omega (arith, revived-ignored w f s ignores))
          (λ size i h. (revived-IsAt w s size i h.0, h.1)))
  | inr other ↦ rw (other) (next-Looked str s ss (find w str ss) other (find-Looked w str ss))
]
