-- ===== src/Undump/Accepted.antt =====
-- What src/lundump.c loads has passed the checker that it calls, in all its functions.
use luarc.Prelude.{
  ℕ, zero, suc, ◌≡◌, refl, Bool, true, false, not, List, arith, Bool-cases, inl, inr,
}
use mathlib.Core.Path.{subst}
use luarc.Chunk.{Str, Proto, proto, Protos, end, cons}
use luarc.Undump.{
  ok, err, fault, Result, Load, and_then, ◌>>◌, pure, when, load_head, load_int, load_protos,
  load_debug, load_function, load_header, undump, with_debug, source_of, Error,
}

-- Every function of the tree passes.
abbrev mutual
  pub AllFunctions : (Proto → Bool) → Proto → Type 0
  AllFunctions check (proto f fs) = (check (proto f fs) ≡ true) × AllProtos check fs

  pub AllProtos : (Proto → Bool) → Protos → Type 0
  AllProtos check end = Unit {0}
  AllProtos check (cons p ps) = AllFunctions check p × AllProtos check ps

and_then-ok :
    {A B : Type 0} (m : Result A) (k : A → Load B) {b : B} {r : List ℕ}
    → and_then m k ≡ ok b r
    → (a : A) × (z : List ℕ) × (m ≡ ok a z) × (k a z ≡ ok b r)
and_then-ok (ok a z) k h = (a, z, refl, h)
and_then-ok (err e) k h = cc
and_then-ok fault k h = cc

loaded : {p q : Proto} {z r : List ℕ} → ok p z ≡ ok q r → p ≡ q
loaded h = cc

loaded_all : {ps qs : Protos} {z r : List ℕ} → ok ps z ≡ ok qs r → ps ≡ qs
loaded_all h = cc

passes :
    (check : Proto → Bool) (p : Proto) {q : Proto} (z : List ℕ) {r : List ℕ}
    → check p ≡ true
    → (when (not (check p)) Error.bad_code >> pure p) z ≡ ok q r
    → p ≡ q
passes check p z good h = ground arith

refuses :
    (check : Proto → Bool) (p : Proto) {q : Proto} (z : List ℕ) {r : List ℕ}
    → check p ≡ false
    → (when (not (check p)) Error.bad_code >> pure p) z ≡ ok q r
    → ⊥
refuses check p z bad h = ground arith

load_protos-AllProtos :
    (check : Proto → Bool) (n : ℕ) (m : Load Proto)
    → ((z : List ℕ) (p : Proto) (r : List ℕ) → m z ≡ ok p r → AllFunctions check p)
    → (z : List ℕ) {ps : Protos} {r : List ℕ} → load_protos n m z ≡ ok ps r
    → AllProtos check ps
unfolding load_protos
load_protos-AllProtos check zero m each z h = subst (AllProtos check) (loaded_all h) tt
load_protos-AllProtos check (suc n) m each z h =
    let (p, z', one, h') = and_then-ok (m z) _ h in
    let (ps, z'', rest, h'') = and_then-ok (load_protos n m z') _ h' in
    subst (AllProtos check) (loaded_all h'')
      (each z p z' one, load_protos-AllProtos check n m each z' rest)

load_function-AllFunctions :
    (check : Proto → Bool) (depth : ℕ) (source : Str) (z : List ℕ) {p : Proto} {r : List ℕ}
    → load_function check depth source z ≡ ok p r
    → AllFunctions check p
unfolding load_function
load_function-AllFunctions check zero source z h = absurd (cc)
load_function-AllFunctions check (suc depth) source z h =
    let (f, z1, _, h1) = and_then-ok (load_head source z) _ h in
    let (n, z2, _, h2) = and_then-ok (load_int z1) _ h1 in
    let (fs, z3, nested, h3) =
      and_then-ok (load_protos n (load_function check depth (source_of f source)) z2) _ h2 in
    let (d, z4, _, h4) = and_then-ok (load_debug z3) _ h3 in
    elim (Bool-cases (check (proto (with_debug f d) fs))) [
      | inl good ↦
          subst (AllFunctions check) {x = proto (with_debug f d) fs}
            (passes check (proto (with_debug f d) fs) z4 good h4)
            (
              good,
              load_protos-AllProtos check n _
                  (λ z p r e. load_function-AllFunctions check depth (source_of f source) z e) z2
                  nested,
            )
      | inr bad ↦ absurd (refuses check (proto (with_debug f d) fs) z4 bad h4)
    ]

-- Every function of a chunk that is loaded, the nested ones too, has passed `check`.
pub undump-AllFunctions :
    (check : Proto → Bool) (depth : ℕ) (z : List ℕ) {p : Proto} {r : List ℕ}
    → undump check depth z ≡ ok p r
    → AllFunctions check p
unfolding undump
undump-AllFunctions check depth z h =
    let (_, z', _, h') = and_then-ok (load_header z) _ h in
    load_function-AllFunctions check depth _ z' h'
