-- ===== src/Compare/Ordered.antt =====
-- The order of strings that `luaV_lessthan` and `lessequal` of src/lvm.c give is total.
use Prim.Native.Nat.{Ordering}
use luarc.Prelude.{
  ℕ, ◌≡◌, ◌⊎◌, refl, sym, ap, ◌∙◌, Bool, true, false, some, List, [], ◌∷◌, ◌==◌, Bool-cases, inl,
  inr, arith, ==_iff,
}
use luarc.Compare.{c_string, Collation, Calls, lessthan, lessequal, string, verdict, is_lt, is_le}
use luarc.Compare.Chunks.{
  chunks_lem, rest_chunks, chunks, lexicographic, else_by, l_strcmp-lexicographic,
}

abbrev pub opposite : Ordering → Ordering
opposite Ordering.lt = Ordering.gt
opposite Ordering.eq = Ordering.eq
opposite Ordering.gt = Ordering.lt

-- What is known of the comparison of C strings.
pub record IsOrder (cmp : Collation) : Type 0 where
  pub same : (a b : List ℕ) → cmp a b ≡ Ordering.eq → a ≡ b
  pub itself : (a : List ℕ) → cmp a a ≡ Ordering.eq
  pub flipped : (a b : List ℕ) → cmp b a ≡ opposite (cmp a b)
  pub chained :
      (a b c : List ℕ) → cmp a b ≡ Ordering.lt → cmp b c ≡ Ordering.lt → cmp a c ≡ Ordering.lt

pub opposite-else_by : (o p : Ordering) → opposite (else_by o p) ≡ else_by (opposite o) (opposite p)
opposite-else_by Ordering.lt p = refl
opposite-else_by Ordering.eq p = refl
opposite-else_by Ordering.gt p = refl

-- Putting the zeros back between the chunks.
joined : List (List ℕ) → List ℕ
joined [] = []
joined (c ∷ []) = c
joined ([] ∷ (d ∷ ds)) = 0 ∷ joined (d ∷ ds)
joined ((x ∷ c) ∷ (d ∷ ds)) = x ∷ joined (c ∷ (d ∷ ds))

joined-in_first :
    (x : ℕ) (d : List ℕ) (ds : List (List ℕ)) → joined ((x ∷ d) ∷ ds) ≡ x ∷ joined (d ∷ ds)
unfolding joined
joined-in_first x d [] = refl
joined-in_first x d (e ∷ ds) = refl

joined-zero : (d : List ℕ) (ds : List (List ℕ)) → joined ([] ∷ (d ∷ ds)) ≡ 0 ∷ joined (d ∷ ds)
unfolding joined
joined-zero d ds = refl

joined-chunks : (s : List ℕ) → joined (chunks s) ≡ s
unfolding chunks
joined-chunks [] = unfold joined in refl
joined-chunks (x ∷ s) =
    let before : joined (c_string s ∷ rest_chunks s) ≡ s =
      ap joined (sym (chunks_lem s)) ∙ joined-chunks s in
    elim (Bool-cases (x == 0)) [
      | inl zero_byte ↦
          rw (zero_byte, chunks_lem s)
            (joined-zero (c_string s) (rest_chunks s)
              ∙ ap (λ l. 0 ∷ l) before
              ∙ ap (λ y. y ∷ s) (sym ((==_iff x 0).0 zero_byte)))
      | inr other ↦
          rw (other, chunks_lem s)
            (joined-in_first x (c_string s) (rest_chunks s) ∙ ap (λ l. x ∷ l) before)
    ]

chunks_inj : (s t : List ℕ) → chunks s ≡ chunks t → s ≡ t
chunks_inj s t h = sym (joined-chunks s) ∙ ap joined h ∙ joined-chunks t

module _ (cmp : Collation) (is : IsOrder cmp) where
  lexicographic-flipped :
      (cs ds : List (List ℕ)) → lexicographic cmp ds cs ≡ opposite (lexicographic cmp cs ds)
  unfolding lexicographic
  lexicographic-flipped [] [] = refl
  lexicographic-flipped [] (d ∷ ds) = refl
  lexicographic-flipped (c ∷ cs) [] = refl
  lexicographic-flipped (c ∷ cs) (d ∷ ds) =
      rw
        (
          is.flipped c d,
          lexicographic-flipped cs ds,
          opposite-else_by (cmp c d) (lexicographic cmp cs ds),
        )
        refl

  lexicographic-itself : (cs : List (List ℕ)) → lexicographic cmp cs cs ≡ Ordering.eq
  unfolding lexicographic
  lexicographic-itself [] = refl
  lexicographic-itself (c ∷ cs) = rw (is.itself c, lexicographic-itself cs) refl

  lexicographic-same : (cs ds : List (List ℕ)) → lexicographic cmp cs ds ≡ Ordering.eq → cs ≡ ds
  unfolding lexicographic
  lexicographic-same [] [] h = refl
  lexicographic-same [] (d ∷ ds) h = absurd (cc)
  lexicographic-same (c ∷ cs) [] h = absurd (cc)
  lexicographic-same (c ∷ cs) (d ∷ ds) h = ground (arith, is.same c d, lexicographic-same cs ds)

  lexicographic-chained :
      (bs cs ds : List (List ℕ))
      → lexicographic cmp bs cs ≡ Ordering.lt
      → lexicographic cmp cs ds ≡ Ordering.lt
      → lexicographic cmp bs ds ≡ Ordering.lt
  unfolding lexicographic
  lexicographic-chained [] [] ds h k = absurd (cc)
  lexicographic-chained [] (c ∷ cs) [] h k = absurd (cc)
  lexicographic-chained [] (c ∷ cs) (d ∷ ds) h k = refl
  lexicographic-chained (b ∷ bs) [] ds h k = absurd (cc)
  lexicographic-chained (b ∷ bs) (c ∷ cs) [] h k = absurd (cc)
  lexicographic-chained (b ∷ bs) (c ∷ cs) (d ∷ ds) h k =
      ground (arith, is.chained b c d, is.same b c, is.same c d, lexicographic-chained bs cs ds)

module _ (c : Calls) (is : IsOrder c.strcoll) where
  abbrev by_chunk : List ℕ → List ℕ → Ordering
  by_chunk a b = lexicographic c.strcoll (chunks a) (chunks b)

  lessthan-string : (a b : List ℕ) → lessthan c (string a) (string b) ≡ is_lt (some (by_chunk a b))
  unfolding lessthan
  lessthan-string a b = ap is_lt (l_strcmp-lexicographic c.strcoll a b is.same)

  lessequal-string :
      (a b : List ℕ) → lessequal c (string a) (string b) ≡ is_le (some (by_chunk a b))
  unfolding lessequal
  lessequal-string a b = ap is_le (l_strcmp-lexicographic c.strcoll a b is.same)

  -- The four comparisons of two strings.
  abbrev pub Results : List ℕ → List ℕ → (lt le gt ge : Bool) → Type 0
  Results a b lt le gt ge =
      (lessthan c (string a) (string b) ≡ verdict lt)
      × (lessequal c (string a) (string b) ≡ verdict le)
      × (lessthan c (string b) (string a) ≡ verdict gt)
      × (lessequal c (string b) (string a) ≡ verdict ge)

  results :
      (a b : List ℕ) (o : Ordering)
      → by_chunk a b ≡ o
      → (lessthan c (string a) (string b) ≡ is_lt (some o))
        × (lessequal c (string a) (string b) ≡ is_le (some o))
        × (lessthan c (string b) (string a) ≡ is_lt (some (opposite o)))
        × (lessequal c (string b) (string a) ≡ is_le (some (opposite o)))
  results a b o h =
      let back : by_chunk b a ≡ opposite o =
        lexicographic-flipped c.strcoll is (chunks a) (chunks b) ∙ ap opposite h in
      (
        lessthan-string a b ∙ ap (λ p. is_lt (some p)) h,
        lessequal-string a b ∙ ap (λ p. is_le (some p)) h,
        lessthan-string b a ∙ ap (λ p. is_lt (some p)) back,
        lessequal-string b a ∙ ap (λ p. is_le (some p)) back,
      )

  by_order :
      (a b : List ℕ) (o : Ordering)
      → by_chunk a b ≡ o
      → Results a b true true false false
        ⊎ (((a ≡ b) × Results a b false true false true) ⊎ Results a b false false true true)
  by_order a b Ordering.lt h = inl (results a b Ordering.lt h)
  by_order a b Ordering.eq h = inr (
      inl (
        chunks_inj a b (lexicographic-same c.strcoll is (chunks a) (chunks b) h),
        results a b Ordering.eq h,
      ))
  by_order a b Ordering.gt h = inr (inr (results a b Ordering.gt h))

  is_lt_inv : (o : Ordering) → is_lt (some o) ≡ verdict true → o ≡ Ordering.lt
  is_lt_inv Ordering.lt h = refl
  is_lt_inv Ordering.eq h = absurd (ground arith)
  is_lt_inv Ordering.gt h = absurd (ground arith)

  -- Where `strcoll` orders C strings, `<` and `<=` order all strings, those with zeros in them too: of
  -- two strings one is less than the other, or they are equal, with all four comparisons telling
  -- the same; and `<` is transitive.
  pub lessthan_total :
      (a b d : List ℕ)
      → (Results a b true true false false
          ⊎ (((a ≡ b) × Results a b false true false true) ⊎ Results a b false false true true))
        × (lessthan c (string a) (string b) ≡ verdict true
            → lessthan c (string b) (string d) ≡ verdict true
            → lessthan c (string a) (string d) ≡ verdict true)
  lessthan_total a b d = (
    by_order a b (by_chunk a b) refl,
    λ h k.
        let ab = is_lt_inv (by_chunk a b) (sym (lessthan-string a b) ∙ h) in
        let bd = is_lt_inv (by_chunk b d) (sym (lessthan-string b d) ∙ k) in
        lessthan-string a d
        ∙ ap (λ o. is_lt (some o))
            (lexicographic-chained c.strcoll is (chunks a) (chunks b) (chunks d) ab bd),
  )
