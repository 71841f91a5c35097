-- ===== src/Release/Counted.antt =====
-- What it means that reference counts are right: each count is the number of value slots that hold
-- the object. The slots are listed here independently of what src/lgc.c releases.
use luarc.Prelude.{
  ℕ, ◌+◌, ◌≡◌, Bool, true, false, ◌||◌, ◌⊎◌, Option, none, some, List, [], ◌∷◌, drop, ◌==◌,
  if◌then◌else◌,
}
use luarc.Object.{
  Ptr, Tag, Value, object, deadkey, Node, Body, tstring, udata, proto, cclosure, lclosure,
  open_upval, closed_upval, table, thread, GcObject, ttisnil, is_deadkey,
}
use luarc.Heap.{Heap, cell, State}
use luarc.Heap.Total.{Weight, total}
use luarc.Members.{some_object, present, objects, stack_limit}

-- How often `p` stands in a list of pointers, and in a list of values.
abbrev pub hits : Ptr → List Ptr → ℕ
hits p [] = 0
hits p (q ∷ qs) = (if q == p then 1 else 0) + hits p qs

abbrev pub hit : Ptr → Value → ℕ
hit p (object t q) = if q == p then 1 else 0
hit p (deadkey q) = if q == p then 1 else 0
hit p _ = 0

abbrev pub occ : Ptr → List Value → ℕ
occ p [] = 0
occ p (v ∷ vs) = hit p v + occ p vs

-- How often a node holds `p`: a dead key holds nothing.
abbrev pub node_hits : Ptr → List Node → ℕ
node_hits p [] = 0
node_hits p (n ∷ ns) = (if is_deadkey n.key then 0 else hit p n.key) + hit p n.val + node_hits p ns

-- How often an object's fields hold `p`.
unfoldable pub slots : Ptr → Body → ℕ
slots p (tstring _ _) = 0
slots p (udata mt env) = occ p (some_object Tag.table mt) + hit p (object Tag.table env)
slots p (proto source k upvalues q locvars) =
    occ p (some_object Tag.string source)
    + occ p k
    + occ p (present Tag.string upvalues)
    + occ p (present Tag.proto q)
    + occ p (present Tag.string locvars)
slots p (cclosure env upvalue) = hit p (object Tag.table env) + occ p upvalue
slots p (lclosure env q upvals) =
    hit p (object Tag.table env) + hit p (object Tag.proto q) + occ p (objects Tag.upval upvals)
slots p (open_upval _) = 0
slots p (closed_upval v) = hit p v
slots p (table mt array node) = occ p (some_object Tag.table mt) + occ p array + node_hits p node
slots p (thread gt stack _ _) = hit p gt + occ p stack

-- Only an empty node has a dead key, and a stack holds nothing above its limit.
abbrev pub IsTidyNodes : List Node → Type 0
IsTidyNodes [] = Unit {0}
IsTidyNodes (n ∷ ns) = ((ttisnil n.val ≡ true) ⊎ (is_deadkey n.key ≡ false)) × IsTidyNodes ns

abbrev pub IsTidy : Body → Type 0
IsTidy (table _ _ node) = IsTidyNodes node
IsTidy (thread _ stack top ci_tops) =
    (p : Ptr) → occ p (drop (stack_limit top ci_tops + 1) stack) ≡ 0
IsTidy _ = Unit {0}

-- The count that stands at an address, 0 where there is no object.
abbrev pub ref_of : Option GcObject → ℕ
ref_of none = 0
ref_of (some o) = o.ref

abbrev pub ref_at : Ptr → Heap → ℕ
ref_at p h = ref_of (cell h p)

-- A sum over the bodies of the live objects, those under release apart: `doomed` are the objects
-- whose members are being dropped one by one.
abbrev pub body_weight : (Body → ℕ) → (Ptr → Bool) → Weight
body_weight f doomed q none = 0
body_weight f doomed q (some o) = if doomed q then 0 else f o.body

abbrev pub sum_bodies : (Body → ℕ) → (Ptr → Bool) → Heap → ℕ
sum_bodies f doomed h = total (body_weight f doomed) h

abbrev pub refs_to : (Ptr → Bool) → Ptr → Heap → ℕ
refs_to doomed p h = sum_bodies (slots p) doomed h

-- The objects under release, with one more.
abbrev pub with_doomed : Ptr → (Ptr → Bool) → Ptr → Bool
with_doomed p doomed q = q == p || doomed q

-- `pending` are the values that are still to be dropped.
pub record Counted (doomed : Ptr → Bool) (pending : List Value) (s : State) : Type 0 where
  pub balance :
      (p : Ptr) → ref_at p s.heap ≡ occ p s.roots + refs_to doomed p s.heap + occ p pending
  pub doomed_zero : (p : Ptr) → doomed p ≡ true → ref_at p s.heap ≡ 0
  pub tidy : (p : Ptr) (o : GcObject) → cell s.heap p ≡ some o → IsTidy o.body

abbrev pub nobody : Ptr → Bool
nobody p = false

-- Outside a release: every count is the number of slots in use that hold the object.
abbrev pub IsCounted : State → Type 0
IsCounted s = Counted nobody [] s
