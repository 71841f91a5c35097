-- ===== src/Undump/Fields.antt =====
-- The loads of src/lundump.c read back what the dumps of src/ldump.c wrote, field by field, whatever
-- follows.
use mathlib.Core.List.{append_assoc}
use luarc.Prelude.{
  ℕ, ◌+◌, ◌-◌, ◌%◌, ◌^◌, ◌<◌, ◌≡◌, refl, ap, true, false, none, some, List, [], ◌∷◌, ◌++◌, take,
  length, length-append, ◌==◌, leb, All, arith,
}
use luarc.Chunk.{Str, Constant, nil, boolean, number, string, LocVar, bytes32, bytes64}
use luarc.Dump.{dump_all, dump_vector, dump_string, dump_constant, dump_locvar, dump_upvalue}
use luarc.Undump.{
  Load, ok, load_block, load_char, load_word, load_int, load_number, load_string, load_many,
  load_vector, load_constant, load_locvar, load_upvalue,
}

pub load_block-append : (xs r : List ℕ) → load_block (length xs) (xs ++ r) ≡ ok xs r
unfolding load_block
load_block-append [] r = refl
load_block-append (x ∷ xs) r = rw (load_block-append xs r)

pub load_char-byte : (x : ℕ) (r : List ℕ) → x < 256 → load_char (x % 256 ∷ r) ≡ ok x r
unfolding load_char load_block
load_char-byte x r h = ap (λ n. ok n r) (omega arith)

pub load_word-bytes32 : (x : ℕ) (r : List ℕ) → x < 2 ^ 32 → load_word (bytes32 x ++ r) ≡ ok x r
unfolding load_word load_block
load_word-bytes32 x r h = ap (λ n. ok n r) (omega arith)

pub load_int-bytes32 : (x : ℕ) (r : List ℕ) → x < 2 ^ 31 → load_int (bytes32 x ++ r) ≡ ok x r
unfolding load_int
load_int-bytes32 x r h =
    let small : leb (2 ^ 31) x ≡ false = ground arith in
    rw (load_word-bytes32 x r (omega arith), small)

pub load_number-bytes64 : (x : ℕ) (r : List ℕ) → x < 2 ^ 64 → load_number (bytes64 x ++ r) ≡ ok x r
unfolding load_number load_block
load_number-bytes64 x r h = ap (λ n. ok n r) (omega arith)

take-append : (s t : Str) → take (length s) (s ++ t) ≡ s
take-append [] t = refl
take-append (x ∷ s) t = ap (λ (t : Str). x ∷ t) (take-append s t)

pub load_string-dump :
    (s : Str) (r : List ℕ)
    → length s + 1 < 2 ^ 64
    → load_string (dump_string (some s) ++ r) ≡ ok (some s) r
unfolding load_string dump_string
load_string-dump s r h =
    let positive : (length s + 1 == 0) ≡ false = ground arith in
    let size : length (s ++ 0 ∷ []) ≡ length s + 1 = omega (arith, length-append s (0 ∷ [])) in
    let back : length s + 1 - 1 ≡ length s = omega arith in
    rw
      (
        append_assoc (bytes64 (length s + 1)) (s ++ 0 ∷ []) r,
        load_number-bytes64 (length s + 1) ((s ++ 0 ∷ []) ++ r) h,
        positive,
        ← size,
        load_block-append (s ++ 0 ∷ []) r,
      )
      (rw (size, back, take-append s (0 ∷ [])))

pub load_string-null : (r : List ℕ) → load_string (dump_string none ++ r) ≡ ok none r
unfolding load_string dump_string
load_string-null r = rw (load_number-bytes64 0 r (omega arith))

-- A loop of loads reads back a loop of dumps, item by item.
pub load_many-dump_all :
    {A : Type 0} {P : A → Type 0} (m : Load A) (d : A → List ℕ)
    → ((a : A) (r : List ℕ) → P a → m (d a ++ r) ≡ ok a r)
    → (xs : List A) (r : List ℕ) → All P xs
    → load_many (length xs) m (dump_all d xs ++ r) ≡ ok xs r
unfolding load_many
load_many-dump_all m d item [] r h = refl
load_many-dump_all m d item (x ∷ xs) r h = rw (
  append_assoc (d x) (dump_all d xs) r,
  item x (dump_all d xs ++ r) h.0,
  load_many-dump_all m d item xs r h.1,
)

abbrev pub IsWords : List ℕ → Type 0
IsWords xs = (length xs < 2 ^ 31) × All (λ x. x < 2 ^ 32) xs

pub load_vector-dump : (xs r : List ℕ) → IsWords xs → load_vector (dump_vector xs ++ r) ≡ ok xs r
unfolding load_vector dump_vector
load_vector-dump xs r h = rw (
  append_assoc (bytes32 (length xs)) (dump_all bytes32 xs) r,
  load_int-bytes32 (length xs) (dump_all bytes32 xs ++ r) h.0,
  load_many-dump_all load_word bytes32 load_word-bytes32 xs r h.1,
)

abbrev pub IsStr : Str → Type 0
IsStr s = length s + 1 < 2 ^ 64

abbrev pub IsConstant : Constant → Type 0
IsConstant (number n) = n < 2 ^ 64
IsConstant (string s) = IsStr s
IsConstant _ = Unit {0}

pub load_constant-dump :
    (c : Constant) (r : List ℕ) → IsConstant c → load_constant (dump_constant c ++ r) ≡ ok c r
unfolding load_constant dump_constant
load_constant-dump nil r h = rw (load_char-byte 0 r (omega arith))
load_constant-dump (boolean true) r h =
    rw (load_char-byte 1 (1 % 256 ∷ r) (omega arith), load_char-byte 1 r (omega arith))
load_constant-dump (boolean false) r h =
    rw (load_char-byte 1 (0 % 256 ∷ r) (omega arith), load_char-byte 0 r (omega arith))
load_constant-dump (number n) r h =
    rw (load_char-byte 3 (bytes64 n ++ r) (omega arith), load_number-bytes64 n r h)
load_constant-dump (string s) r h =
    rw (load_char-byte 4 (dump_string (some s) ++ r) (omega arith), load_string-dump s r h)

abbrev pub IsLocVar : LocVar → Type 0
IsLocVar v = IsStr v.varname × (v.startpc < 2 ^ 31) × (v.endpc < 2 ^ 31)

pub load_locvar-dump :
    (v : LocVar) (r : List ℕ) → IsLocVar v → load_locvar (dump_locvar v ++ r) ≡ ok v r
unfolding load_locvar dump_locvar
load_locvar-dump v r h = rw (
  append_assoc (dump_string (some v.varname)) (bytes32 v.startpc ++ bytes32 v.endpc) r,
  append_assoc (bytes32 v.startpc) (bytes32 v.endpc) r,
  load_string-dump v.varname (bytes32 v.startpc ++ (bytes32 v.endpc ++ r)) h.0,
  load_int-bytes32 v.startpc (bytes32 v.endpc ++ r) h.1,
  load_int-bytes32 v.endpc r h.2,
)

pub load_upvalue-dump :
    (s : Str) (r : List ℕ) → IsStr s → load_upvalue (dump_upvalue s ++ r) ≡ ok s r
unfolding load_upvalue dump_upvalue
load_upvalue-dump s r h = rw (load_string-dump s r h)
