-- ===== src/Strings/Added.antt =====
-- A string that `newlstr` of src/lstring.c adds, and a table that is rehashed, keep the table in order.
use mathlib.Core.Path.{subst}
use luarc.Prelude.Int.{max_int}
use luarc.Prelude.{
  ℕ, ◌+◌, ◌*◌, ◌/◌, ◌%◌, ◌<◌, ◌≤◌, ◌≡◌, inl, inr, refl, sym, ◌∙◌, true, ◌&&◌, List, [], ◌∷◌, length,
  replicate, ltb, leb, Bool-cases, arith,
}
use luarc.Object.{Ptr}
use luarc.Chunk.{Str, str_eq}
use luarc.Undump.Saved.{str_eq_sound}
use luarc.Strings.{TString, StringTable, hash_of, chain_in, rehash, resize, newlstr}
use luarc.Strings.Rehash.{over, over_all, chain_in-over, chain_in-length, rehash-over}
use luarc.Strings.Placed.{
  Placed, of_bytes, at, one, Placed-chain_in, Placed-rehash, Placed-replicate, over_all-replicate,
  length-replicate,
}

-- Every string stands in its chain, no two have the same bytes, and their number is right.
pub record IsInterned (tb : StringTable) : Type 0 where
  pub some_chain : 0 < length tb.hash
  pub placed : Placed (length tb.hash) 0 tb.hash
  pub single : (str : Str) → over_all (of_bytes str) tb.hash ≤ 1
  pub counted : tb.nuse ≡ over_all one tb.hash

-- A table with the same strings, whatever their order.
record Same (tb tb' : StringTable) : Type 0 where
  over : (f : TString → ℕ) → over_all f tb'.hash ≡ over_all f tb.hash
  some_chain : 0 < length tb'.hash
  placed : Placed (length tb'.hash) 0 tb'.hash
  nuse : tb'.nuse ≡ tb.nuse

resize-Same :
    (tb : StringTable) (n : ℕ)
    → 0 < n
    → 0 < length tb.hash
    → Placed (length tb.hash) 0 tb.hash
    → Same tb (resize tb n)
unfolding resize
resize-Same tb n pos some_chain placed = elim (Bool-cases tb.sweepstring) [
  | inl sweeping ↦
      rw (sweeping)
        (record { over = λ f. refl; some_chain = some_chain; placed = placed; nuse = refl })
  | inr free ↦
      let size = length-replicate n in
      let fresh : 0 < length (replicate {A = List TString} n []) = omega (arith, size) in
      let long = (rehash-over one (replicate n []) tb.hash fresh).1 in
      rw (free) (record {
        over = λ f.
            omega (arith, (rehash-over f (replicate n []) tb.hash fresh).0, over_all-replicate f n);
        some_chain = omega (arith, long, size);
        placed =
            subst (λ m. Placed m 0 (rehash (replicate n []) tb.hash)) (sym (long ∙ size))
              (Placed-rehash (replicate n []) n (length tb.hash) 0 tb.hash (sym size) fresh
                (Placed-replicate n 0 n) placed);
        nuse = refl;
      })
]

-- The outcome of `luaS_newlstr`: the table is in order, it has the string at the address, and it has
-- what it had.
pub record Interns (tb : StringTable) (str : Str) (r : StringTable × Ptr) : Type 0 where
  pub interned : IsInterned r.0
  pub there : over_all (at r.1 str) r.0.hash ≡ 1
  pub kept : (t : Str) (q : Ptr) → over_all (at q t) tb.hash ≤ over_all (at q t) r.0.hash

Interns-Same :
    (tb : StringTable) (str : Str) (tb1 tb2 : StringTable) (q : Ptr)
    → Same tb1 tb2
    → Interns tb str (tb1, q)
    → Interns tb str (tb2, q)
Interns-Same tb str tb1 tb2 q same r = record {
  interned = record {
    some_chain = same.some_chain;
    placed = same.placed;
    single = λ t. omega (arith, same.over (of_bytes t), r.interned.single t);
    counted = same.nuse ∙ (r.interned.counted ∙ sym (same.over one));
  };
  there = same.over (at q str) ∙ r.there;
  kept = λ t p. omega (arith, same.over (at p t), r.kept t p);
}

at-le : (q : Ptr) (str : Str) (s : TString) → at q str s ≤ of_bytes str s
at-le q str s = ground arith

over_at-le : (q : Ptr) (str : Str) (c : List TString) → over (at q str) c ≤ over (of_bytes str) c
over_at-le q str [] = omega arith
over_at-le q str (s ∷ ss) = omega (arith, at-le q str s, over_at-le q str ss)

pub over_all-at_le :
    (q : Ptr) (str : Str) (h : List (List TString))
    → over_all (at q str) h ≤ over_all (of_bytes str) h
over_all-at_le q str [] = omega arith
over_all-at_le q str (c ∷ cs) = omega (arith, over_at-le q str c, over_all-at_le q str cs)

str_eq_refl : (s : Str) → str_eq s s ≡ true
str_eq_refl [] = refl
str_eq_refl (x ∷ xs) = ground (arith, str_eq_refl xs)

abbrev made : StringTable → Ptr → Str → TString
made tb p str = record { ptr = p; bytes = str; hash = hash_of str; marked = tb.currentwhite % 4 }

abbrev added : StringTable → Ptr → Str → StringTable
added tb p str = record tb { hash = chain_in tb.hash (made tb p str); nuse = tb.nuse + 1 }

module _ (tb : StringTable) (p : Ptr) (str : Str) (ok : IsInterned tb)
    (new : over_all (of_bytes str) tb.hash ≡ 0) where
  sum :
      (f : TString → ℕ) → over_all f (added tb p str).hash ≡ f (made tb p str) + over_all f tb.hash
  sum f = chain_in-over f tb.hash (made tb p str) ok.some_chain

  single_added : (t : Str) → over_all (of_bytes t) (added tb p str).hash ≤ 1
  single_added t = elim (Bool-cases (str_eq str t)) [
    | inl same ↦
        let e : str ≡ t = str_eq_sound str t same in
        let none_yet : over_all (of_bytes t) tb.hash ≡ 0 =
          subst (λ u. over_all (of_bytes u) tb.hash ≡ 0) e new in
        ground (arith, sum (of_bytes t))
    | inr other ↦ ground (arith, sum (of_bytes t), ok.single t)
  ]

  added-Interns : Interns tb str (added tb p str, p)
  added-Interns = record {
    interned = record {
      some_chain = omega (arith, chain_in-length one tb.hash (made tb p str), ok.some_chain);
      placed =
          subst (λ n. Placed n 0 (chain_in tb.hash (made tb p str)))
            (sym (chain_in-length one tb.hash (made tb p str)))
            (Placed-chain_in tb.hash (length tb.hash) (made tb p str) refl ok.placed refl);
      single = single_added;
      counted = omega (arith, sum one, ok.counted);
    };
    there =
        let self = str_eq_refl str in
        let here : at p str (made tb p str) ≡ 1 = ground arith in
        omega (arith, sum (at p str), here, over_all-at_le p str tb.hash, new);
    kept = λ t q. omega (arith, sum (at q t));
  }

  pub newlstr-Interns : Interns tb str (newlstr tb p str (hash_of str))
  unfolding newlstr
  newlstr-Interns =
      let n : ℕ = length (added tb p str).hash in
      elim (Bool-cases (ltb n (tb.nuse + 1) && leb n (max_int / 2))) [
        | inl crowded ↦
            let r = added-Interns in
            rw (crowded) (
              Interns-Same tb str (added tb p str) _ p
                (resize-Same (added tb p str) (n * 2) (omega (arith, r.interned.some_chain))
                  r.interned.some_chain r.interned.placed)
                r)
        | inr roomy ↦ rw (roomy) added-Interns
      ]
