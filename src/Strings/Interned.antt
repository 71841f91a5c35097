-- ===== src/Strings/Interned.antt =====
-- `luaS_newlstr` of src/lstring.c gives one address for equal strings.
use native.Mathlib.Nat.{mod-lt}
use mathlib.Core.Path.{subst}
use luarc.Prelude.{
  ℕ, ◌+◌, ◌%◌, ◌≤◌, ◌≡◌, ◌≢◌, inl, inr, refl, sym, ◌∙◌, Option, none, some, List, [], ◌∷◌, length,
  get_or, set, length-set, ◌==◌, Bool-cases, All, arith,
}
use luarc.Object.{Ptr}
use luarc.Chunk.{Str}
use luarc.Strings.Find.{IgnoresMarks, Looked, missing, met, find-Looked}
use luarc.Strings.{TString, StringTable, hash_of, newlstr, find, luas_newlstr}
use luarc.Strings.Rehash.{over, over_all, over_all-set}
use luarc.Strings.Placed.{IsAt, Placed, of_bytes, at, one, Placed-get, Placed-set, in_chain}
use luarc.Strings.Added.{IsInterned, Interns, newlstr-Interns, over_all-at_le}

-- A string that is found: its chain has the same strings as before but for a colour.
module _ (tb : StringTable) (str : Str) (ok : IsInterned tb) where
  abbrev index : ℕ
  index = hash_of str % length tb.hash

  bucket_all : over_all (of_bytes str) tb.hash ≡ over (of_bytes str) (get_or tb.hash index [])
  bucket_all = in_chain (length tb.hash) 0 index str tb.hash ok.placed (omega arith)

  found-Interns :
      (q : Ptr) (c : List TString)
      → 1 ≤ over (at q str) (get_or tb.hash index [])
      → ((f : TString → ℕ) → IgnoresMarks f → over f c ≡ over f (get_or tb.hash index []))
      → ((size i : ℕ) → All (IsAt size i) (get_or tb.hash index []) → All (IsAt size i) c)
      → Interns tb str (record tb { hash = set tb.hash index c }, q)
  found-Interns q c there same placed =
      let inside = mod-lt (hash_of str) ok.some_chain in
      let sum : (f : TString → ℕ)
          → IgnoresMarks f
          → over_all f (set tb.hash index c) ≡ over_all f tb.hash =
        λ f ignores. omega (arith, over_all-set f tb.hash index c inside, same f ignores) in
      record {
        interned = record {
          some_chain = omega (arith, length-set tb.hash index c, ok.some_chain);
          placed =
              subst (λ n. Placed n 0 (set tb.hash index c)) (sym (length-set tb.hash index c))
                (Placed-set (length tb.hash) 0 index tb.hash c ok.placed (
                  placed (length tb.hash) (0 + index)
                    (Placed-get (length tb.hash) 0 index tb.hash ok.placed)));
          single = λ t. omega (arith, sum (of_bytes t) (λ s. refl), ok.single t);
          counted = ok.counted ∙ sym (sum one (λ s. refl));
        };
        there =
            let all_at = over_all-set (at q str) tb.hash index [] inside in
            omega (
              arith,
              all_at,
              sum (at q str) (λ s. refl),
              over_all-at_le q str tb.hash,
              ok.single str,
              there,
            );
        kept = λ t p. omega (arith, sum (at p t) (λ s. refl));
      }

  Looked-Interns :
      (p : Ptr) (o : Option (Ptr × List TString))
      → Looked str (get_or tb.hash index []) o
      → Interns tb str (elim o as (λ _. StringTable × Ptr) [
        | none ↦ newlstr tb p str (hash_of str)
        | some (q, chain) ↦ (record tb { hash = set tb.hash index chain }, q)
      ])
  Looked-Interns p _ (missing none_yet) = newlstr-Interns tb p str ok (bucket_all ∙ none_yet)
  Looked-Interns p _ (met {q} {c'} there same placed) = found-Interns q c' there same placed

  -- Interning a string in a table whose strings stand in their chains, with no two alike and their
  -- number right, gives such a table, which has the string just once at the address that is returned,
  -- and every string that it had at the same address; whether the string was found, perhaps dead and
  -- brought back to life, or made, and whether the table was rehashed or not.
  pub luas_newlstr-Interns : (p : Ptr) → Interns tb str (luas_newlstr tb p str)
  unfolding luas_newlstr
  luas_newlstr-Interns p =
      Looked-Interns p (find tb.currentwhite str (get_or tb.hash index []))
        (find-Looked tb.currentwhite str (get_or tb.hash index []))

two_at : (q r : Ptr) (str : Str) (s : TString) → q ≢ r → at q str s + at r str s ≤ of_bytes str s
two_at q r str s ne = ground arith

over_two_at :
    (q r : Ptr) (str : Str) (c : List TString)
    → q ≢ r
    → over (at q str) c + over (at r str) c ≤ over (of_bytes str) c
over_two_at q r str [] ne = omega arith
over_two_at q r str (s ∷ ss) ne = omega (arith, two_at q r str s ne, over_two_at q r str ss ne)

over_all_two_at :
    (q r : Ptr) (str : Str) (h : List (List TString))
    → q ≢ r
    → over_all (at q str) h + over_all (at r str) h ≤ over_all (of_bytes str) h
over_all_two_at q r str [] ne = omega arith
over_all_two_at q r str (c ∷ cs) ne =
    omega (arith, over_two_at q r str c ne, over_all_two_at q r str cs ne)

-- Interning equal strings one after the other gives one address, whatever addresses the allocator
-- would give for new ones.
pub luas_newlstr_again :
    (tb : StringTable) (str : Str) (p r : Ptr)
    → IsInterned tb
    → (luas_newlstr (luas_newlstr tb p str).0 r str).1 ≡ (luas_newlstr tb p str).1
luas_newlstr_again tb str p r ok =
    let first = luas_newlstr-Interns tb str ok p in
    let again = luas_newlstr-Interns (luas_newlstr tb p str).0 str first.interned r in
    let q1 = (luas_newlstr tb p str).1 in
    let q2 = (luas_newlstr (luas_newlstr tb p str).0 r str).1 in
    elim (Bool-cases (q2 == q1)) [
      | inl same ↦ ground arith
      | inr other ↦
          let ne : q2 ≢ q1 = λ e. ground arith in
          absurd (
            omega (
              arith,
              first.there,
              again.there,
              again.kept str q1,
              again.interned.single str,
              over_all_two_at q2 q1 str (luas_newlstr (luas_newlstr tb p str).0 r str).0.hash ne,
            ))
    ]
