-- ===== src/Strings/Placed.antt =====
-- Which chain of the string table (src/lstring.c) a string stands in.
use mathlib.Core.Path.{subst}
use luarc.Prelude.{
  ℕ, zero, suc, ◌+◌, ◌%◌, ◌<◌, ◌≡◌, ◌≢◌, inl, inr, refl, sym, ap, ◌∙◌, ◌&&◌, List, [], ◌∷◌, length,
  get_or, set, replicate, ◌==◌, if◌then◌else◌, Bool-cases, All, arith,
}
use luarc.Object.{Ptr}
use luarc.Chunk.{Str, str_eq}
use luarc.Undump.Saved.{str_eq_sound}
use luarc.Strings.{TString, hash_of, chain_in, chain_all, rehash}
use luarc.Strings.Rehash.{over, over_all, chain_in-length, chain_all-over}

-- A string stands in the chain that its hash says, and its hash is that of its bytes.
abbrev pub IsAt : (size i : ℕ) → TString → Type 0
IsAt size i s = (s.hash % size ≡ i) × (s.hash ≡ hash_of s.bytes)

abbrev pub Placed : (size i : ℕ) → List (List TString) → Type 0
Placed size i [] = Unit {0}
Placed size i (chain ∷ hash) = All (IsAt size i) chain × Placed size (suc i) hash

abbrev pub of_bytes : Str → TString → ℕ
of_bytes str s = if str_eq s.bytes str then 1 else 0

abbrev pub at : Ptr → Str → TString → ℕ
at q str s = if s.ptr == q && str_eq s.bytes str then 1 else 0

abbrev pub one : TString → ℕ
one s = 1

pub Placed-get :
    (size i k : ℕ) (hash : List (List TString))
    → Placed size i hash
    → All (IsAt size (i + k)) (get_or hash k [])
Placed-get size i k [] h = tt
Placed-get size i zero (c ∷ cs) h =
    let same : i ≡ i + 0 = omega arith in subst (λ j. All (IsAt size j) c) same h.0
Placed-get size i (suc k) (c ∷ cs) h =
    let same : suc i + k ≡ i + suc k = omega arith in
    subst (λ j. All (IsAt size j) (get_or cs k [])) same (Placed-get size (suc i) k cs h.1)

pub Placed-set :
    (size i k : ℕ) (hash : List (List TString)) (c : List TString)
    → Placed size i hash
    → All (IsAt size (i + k)) c
    → Placed size i (set hash k c)
Placed-set size i k [] c h a = tt
Placed-set size i zero (x ∷ xs) c h a =
    let same : i + 0 ≡ i = omega arith in (subst (λ j. All (IsAt size j) c) same a, h.1)
Placed-set size i (suc k) (x ∷ xs) c h a =
    let same : i + suc k ≡ suc i + k = omega arith in
    (h.0, Placed-set size (suc i) k xs c h.1 (subst (λ j. All (IsAt size j) c) same a))

pub Placed-chain_in :
    (hash : List (List TString)) (size : ℕ) (s : TString)
    → size ≡ length hash
    → Placed size 0 hash
    → s.hash ≡ hash_of s.bytes
    → Placed size 0 (chain_in hash s)
unfolding chain_in
Placed-chain_in hash size s e h own =
    let where_to : s.hash % length hash ≡ 0 + s.hash % length hash = omega arith in
    let here : s.hash % size ≡ 0 + s.hash % length hash = ap (λ n. s.hash % n) e ∙ where_to in
    Placed-set size 0 (s.hash % length hash) hash _ h
      ((here, own), Placed-get size 0 (s.hash % length hash) hash h)

-- Strings with these bytes are all in one chain.
absent_from :
    (size i : ℕ) (str : Str) (c : List TString)
    → All (IsAt size i) c
    → hash_of str % size ≢ i
    → over (of_bytes str) c ≡ 0
absent_from size i str [] h ne = refl
absent_from size i str (s ∷ ss) h ne = elim (Bool-cases (str_eq s.bytes str)) [
  | inl same ↦
      let e : s.bytes ≡ str = str_eq_sound s.bytes str same in
      absurd (ne (ap (λ b. hash_of b % size) (sym e) ∙ (ap (λ n. n % size) (sym h.0.1) ∙ h.0.0)))
  | inr other ↦ rw (other) (omega (arith, absent_from size i str ss h.1 ne))
]

past_chain :
    (size i : ℕ) (str : Str) (hash : List (List TString))
    → Placed size i hash
    → hash_of str % size < i
    → over_all (of_bytes str) hash ≡ 0
past_chain size i str [] h lt = refl
past_chain size i str (c ∷ cs) h lt =
    let ne : hash_of str % size ≢ i = λ e. omega (arith, e, lt) in
    omega (arith, absent_from size i str c h.0 ne, past_chain size (suc i) str cs h.1 (omega arith))

pub in_chain :
    (size i k : ℕ) (str : Str) (hash : List (List TString))
    → Placed size i hash
    → hash_of str % size ≡ i + k
    → over_all (of_bytes str) hash ≡ over (of_bytes str) (get_or hash k [])
in_chain size i k str [] h e = refl
in_chain size i zero str (c ∷ cs) h e =
    omega (arith, past_chain size (suc i) str cs h.1 (omega (arith, e)))
in_chain size i (suc k) str (c ∷ cs) h e =
    let ne : hash_of str % size ≢ i = λ e'. omega (arith, e, e') in
    omega (
      arith,
      absent_from size i str c h.0 ne,
      in_chain size (suc i) k str cs h.1 (omega (arith, e)),
    )

-- Rehashing puts every string into its chain of the new table.
Placed-chain_all :
    (hash : List (List TString)) (size old i : ℕ) (ss : List TString)
    → size ≡ length hash
    → Placed size 0 hash
    → All (IsAt old i) ss
    → Placed size 0 (chain_all hash ss)
unfolding chain_all
Placed-chain_all hash size old i [] e h a = h
Placed-chain_all hash size old i (s ∷ ss) e h a =
    Placed-chain_all (chain_in hash s) size old i ss (e ∙ sym (chain_in-length one hash s))
      (Placed-chain_in hash size s e h a.0.1) a.1

pub Placed-rehash :
    (hash : List (List TString)) (size old i : ℕ) (chains : List (List TString))
    → size ≡ length hash
    → 0 < length hash
    → Placed size 0 hash
    → Placed old i chains
    → Placed size 0 (rehash hash chains)
unfolding rehash
Placed-rehash hash size old i [] e some_chain h a = h
Placed-rehash hash size old i (c ∷ cs) e some_chain h a =
    let same = (chain_all-over one hash c some_chain).1 in
    Placed-rehash (chain_all hash c) size old (suc i) cs (e ∙ sym same) (omega (arith, same))
      (Placed-chain_all hash size old i c e h a.0) a.1

pub Placed-replicate : (size i n : ℕ) → Placed size i (replicate n [])
Placed-replicate size i zero = tt
Placed-replicate size i (suc n) = (tt, Placed-replicate size (suc i) n)

pub over_all-replicate : (f : TString → ℕ) (n : ℕ) → over_all f (replicate n []) ≡ 0
over_all-replicate f zero = refl
over_all-replicate f (suc n) = omega (arith, over_all-replicate f n)

pub length-replicate : (n : ℕ) → length (replicate {A = List TString} n []) ≡ n
length-replicate zero = refl
length-replicate (suc n) = ap suc (length-replicate n)
