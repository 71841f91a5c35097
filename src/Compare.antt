-- ===== src/Compare.antt =====
-- Comparison of values, src/lvm.c: `l_strcmp`, `call_orderTM`, `luaV_lessthan` and `lessequal`.
-- `strcoll` of the C library enters as an argument, on the bytes before a closing zero, and so do the
-- comparison of numbers and the call of a metamethod.
pub mod Chunks
pub mod Ordered
pub mod Examples
use Prim.Native.Nat.{Ordering}
use luarc.Prelude.{
  ℕ, zero, suc, ◌+◌, Bool, true, false, not, ◌&&◌, Option, none, some, List, [], ◌∷◌, length, drop,
  ◌==◌, if◌then◌else◌,
}

-- The bytes of a C string: those before its first zero, or all, where the closing zero follows.
unfoldable pub c_string : List ℕ → List ℕ
c_string [] = []
c_string (x ∷ s) = let rest = c_string s in if x == 0 then [] else x ∷ rest

abbrev pub Collation : Type 0
Collation = List ℕ → List ℕ → Ordering

-- A round of `l_strcmp` by the result of `strcoll`, where `next` goes on after the zero.
abbrev pub strcmp_round : Ordering → (len ll lr : ℕ) → Option Ordering → Option Ordering
strcmp_round Ordering.lt len ll lr next = some Ordering.lt
strcmp_round Ordering.gt len ll lr next = some Ordering.gt
strcmp_round Ordering.eq len ll lr next =
    if len == lr
    then (if len == ll then some Ordering.eq else some Ordering.gt)
    else if len == ll
    then some Ordering.lt
    else next

-- The loop of `l_strcmp`; the fuel is for a round at each zero of `l` and one more, and without it
-- the result stands for no comparison at all.
unfoldable pub strcmp_loop : Collation → (fuel : ℕ) → (l r : List ℕ) → Option Ordering
unfolding c_string
strcmp_loop strcoll zero l r = none
strcmp_loop strcoll (suc fuel) l r =
    let len = length (c_string l) in
    let next = strcmp_loop strcoll fuel (drop (suc len) l) (drop (suc len) r) in
    strcmp_round (strcoll (c_string l) (c_string r)) len (length l) (length r) next

unfoldable pub l_strcmp : Collation → (l r : List ℕ) → Option Ordering
unfolding strcmp_loop
l_strcmp strcoll l r = strcmp_loop strcoll (suc (length l)) l r

-- The operands of a comparison, by what `ttype` says of them.
pub data Operand : Type 0 where
  number : ℕ → Operand
  string : List ℕ → Operand
  other : (ttype value : ℕ) → Operand

abbrev pub operand_type : Operand → ℕ
operand_type (number n) = 3
operand_type (string s) = 4
operand_type (other t v) = t

-- What comes of a comparison: a truth value, or the error of values that have no order.
pub data Verdict : Type 0 where
  verdict : Bool → Verdict
  order_error : Verdict
  spent : Verdict

abbrev pub is_lt : Option Ordering → Verdict
is_lt none = spent
is_lt (some Ordering.lt) = verdict true
is_lt (some Ordering.eq) = verdict false
is_lt (some Ordering.gt) = verdict false

abbrev pub is_le : Option Ordering → Verdict
is_le none = spent
is_le (some Ordering.lt) = verdict true
is_le (some Ordering.eq) = verdict true
is_le (some Ordering.gt) = verdict false

-- What the comparisons call: of numbers, of C strings, and the metamethods `__lt` and `__le`, which
-- give nothing where `call_orderTM` finds none that both operands share.
pub record Calls : Type 0 where
  pub numlt : ℕ → ℕ → Bool
  pub numle : ℕ → ℕ → Bool
  pub strcoll : Collation
  pub tm_lt : Operand → Operand → Option Bool
  pub tm_le : Operand → Operand → Option Bool

abbrev pub by_lt : Option Bool → Verdict
by_lt none = order_error
by_lt (some b) = verdict b

abbrev pub less : Calls → Operand → Operand → Verdict
less c (number a) (number b) = verdict (c.numlt a b)
less c (string a) (string b) = is_lt (l_strcmp c.strcoll a b)
less c l r = by_lt (c.tm_lt l r)

unfoldable pub lessthan : Calls → Operand → Operand → Verdict
unfolding l_strcmp
lessthan c l r = if operand_type l == operand_type r then less c l r else order_error

-- `__le`, or else `__lt` of the operands in the other order.
abbrev pub by_le : Option Bool → Option Bool → Verdict
by_le (some b) lt = verdict b
by_le none (some b) = verdict (not b)
by_le none none = order_error

abbrev pub less_or_equal : Calls → Operand → Operand → Verdict
less_or_equal c (number a) (number b) = verdict (c.numle a b)
less_or_equal c (string a) (string b) = is_le (l_strcmp c.strcoll a b)
less_or_equal c l r = by_le (c.tm_le l r) (c.tm_lt r l)

unfoldable pub lessequal : Calls → Operand → Operand → Verdict
unfolding l_strcmp
lessequal c l r = if operand_type l == operand_type r then less_or_equal c l r else order_error
