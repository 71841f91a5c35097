-- ===== src/Strings/Rehash.antt =====
-- Chaining strings into a table (src/lstring.c) keeps what is in it and puts each where its hash says.
use native.Mathlib.Nat.{mod-lt}
use luarc.Prelude.{
  ℕ, zero, suc, ◌+◌, ◌%◌, ◌<◌, ◌≡◌, refl, ◌∙◌, List, [], ◌∷◌, length, get_or, set, length-set,
  arith,
}
use luarc.Strings.{TString, chain_in, chain_all, rehash}

-- A measure summed over a chain and over a table.
abbrev pub over : (TString → ℕ) → List TString → ℕ
over f [] = 0
over f (s ∷ ss) = f s + over f ss

abbrev pub over_all : (TString → ℕ) → List (List TString) → ℕ
over_all f [] = 0
over_all f (chain ∷ hash) = over f chain + over_all f hash

pub over_all-set :
    (f : TString → ℕ) (hash : List (List TString)) (i : ℕ) (c : List TString)
    → i < length hash
    → over_all f (set hash i c) + over f (get_or hash i []) ≡ over_all f hash + over f c
over_all-set f [] i c h = absurd (omega arith)
over_all-set f (x ∷ xs) zero c h = omega arith
over_all-set f (x ∷ xs) (suc i) c h = omega (arith, over_all-set f xs i c)

pub mod_lt : (x n : ℕ) → 0 < n → x % n < n
mod_lt x n h = mod-lt x h

module _ (f : TString → ℕ) where
  pub chain_in-over :
      (hash : List (List TString)) (s : TString)
      → 0 < length hash
      → over_all f (chain_in hash s) ≡ f s + over_all f hash
  unfolding chain_in
  chain_in-over hash s h = omega (
    arith,
    over_all-set f hash (s.hash % length hash) (s ∷ get_or hash (s.hash % length hash) [])
        (mod-lt s.hash h),
  )

  pub chain_in-length :
      (hash : List (List TString)) (s : TString) → length (chain_in hash s) ≡ length hash
  unfolding chain_in
  chain_in-length hash s = length-set hash _ _

  pub chain_all-over :
      (hash : List (List TString)) (ss : List TString)
      → 0 < length hash
      → (over_all f (chain_all hash ss) ≡ over f ss + over_all f hash)
        × (length (chain_all hash ss) ≡ length hash)
  unfolding chain_all
  chain_all-over hash [] h = (omega arith, refl)
  chain_all-over hash (s ∷ ss) h =
      let size = chain_in-length hash s in
      let ih = chain_all-over (chain_in hash s) ss (omega (arith, size)) in
      (omega (arith, ih.0, chain_in-over hash s h), ih.1 ∙ size)

  pub rehash-over :
      (newhash old : List (List TString))
      → 0 < length newhash
      → (over_all f (rehash newhash old) ≡ over_all f newhash + over_all f old)
        × (length (rehash newhash old) ≡ length newhash)
  unfolding rehash
  rehash-over newhash [] h = (omega arith, refl)
  rehash-over newhash (chain ∷ old) h =
      let one = chain_all-over newhash chain h in
      let ih = rehash-over (chain_all newhash chain) old (omega (arith, one.1)) in
      (omega (arith, ih.0, one.0), ih.1 ∙ one.1)
