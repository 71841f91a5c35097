-- ===== src/Release/Members.antt =====
-- What `luaC_freeobj` of src/lgc.c drops of an object, against what the object holds.
use mathlib.Core.List.{reverse, reverse-append, append_assoc}
use luarc.Prelude.{
  ℕ, zero, suc, ◌+◌, ◌≡◌, refl, true, false, ◌⊎◌, inl, inr, List, [], ◌∷◌, ◌++◌, take, drop,
  if◌then◌else◌, Bool-cases, arith, sym,
}
use luarc.Object.{
  Ptr, Tag, Value, nil, boolean, lightuserdata, number, object, deadkey, Node, Body, tstring, udata,
  proto, cclosure, lclosure, open_upval, closed_upval, table, thread, ttisnil, is_deadkey,
}
use luarc.Members.{some_object, present, entry_members, node_members, stack_limit, members}
use luarc.Release.Counted.{hit, occ, node_hits, slots, IsTidyNodes, IsTidy}

pub occ-append : (p : Ptr) (xs ys : List Value) → occ p (xs ++ ys) ≡ occ p xs + occ p ys
occ-append p [] ys = omega arith
occ-append p (x ∷ xs) ys = omega (arith, occ-append p xs ys)

occ-reverse : (p : Ptr) (xs : List Value) → occ p (reverse xs) ≡ occ p xs
occ-reverse p [] = refl
occ-reverse p (x ∷ xs) =
    rw (reverse-append (x ∷ []) xs)
      (omega (arith, occ-append p (reverse xs) (x ∷ []), occ-reverse p xs))

occ-take-drop :
    (p : Ptr) (n : ℕ) (xs : List Value) → occ p (take n xs) + occ p (drop n xs) ≡ occ p xs
occ-take-drop p zero xs = omega arith
occ-take-drop p (suc n) [] = refl
occ-take-drop p (suc n) (x ∷ xs) = omega (arith, occ-take-drop p n xs)

hit-nil : (p : Ptr) (v : Value) → ttisnil v ≡ true → hit p v ≡ 0
hit-nil p nil h = refl
hit-nil p (boolean b) h = absurd (cc)
hit-nil p (lightuserdata n) h = absurd (cc)
hit-nil p (number n) h = absurd (cc)
hit-nil p (object t q) h = absurd (cc)
hit-nil p (deadkey q) h = absurd (cc)

-- One node: an empty one drops its key if that is alive, another both.
occ-entry :
    (p : Ptr) (k v : Value)
    → (ttisnil v ≡ true) ⊎ (is_deadkey k ≡ false)
    → occ p (entry_members k v) ≡ (if is_deadkey k then 0 else hit p k) + hit p v
occ-entry p k v h = elim (Bool-cases (ttisnil v)) [
  | inl empty ↦ elim (Bool-cases (is_deadkey k)) [
    | inl dead ↦ rw (empty, dead) (omega (arith, hit-nil p v empty))
    | inr live ↦ rw (empty, live) (omega (arith, hit-nil p v empty))
  ]
  | inr full ↦ elim h [ inl empty ↦ absurd (cc) | inr live ↦ rw (full, live) (omega arith) ]
]

node_members-append :
    (xs ys : List Node) → node_members (xs ++ ys) ≡ node_members xs ++ node_members ys
node_members-append [] ys = refl
node_members-append (x ∷ xs) ys =
    rw (node_members-append xs ys)
      (sym (append_assoc (entry_members x.key x.val) (node_members xs) (node_members ys)))

occ-node_members-reverse :
    (p : Ptr) (ns : List Node) → IsTidyNodes ns → occ p (node_members (reverse ns)) ≡ node_hits p ns
occ-node_members-reverse p [] h = refl
occ-node_members-reverse p (n ∷ ns) h =
    rw (reverse-append (n ∷ []) ns, node_members-append (reverse ns) (n ∷ []))
      (omega (
        arith,
        occ-append p (node_members (reverse ns)) (entry_members n.key n.val ++ []),
        occ-append p (entry_members n.key n.val) [],
        occ-entry p n.key n.val h.0,
        occ-node_members-reverse p ns h.1,
      ))

-- Each object drops exactly what it holds.
pub occ-members : (p : Ptr) (b : Body) → IsTidy b → occ p (members b) ≡ slots p b
unfolding members slots
occ-members p (tstring hash len) h = refl
occ-members p (udata mt env) h =
    omega (arith, occ-append p (some_object Tag.table mt) (object Tag.table env ∷ []))
occ-members p (proto source k upvalues q locvars) h =
    let tail = present Tag.proto q ++ present Tag.string locvars in
    omega (
      arith,
      occ-append p (some_object Tag.string source) (k ++ (present Tag.string upvalues ++ tail)),
      occ-append p k (present Tag.string upvalues ++ tail),
      occ-append p (present Tag.string upvalues) tail,
      occ-append p (present Tag.proto q) (present Tag.string locvars),
    )
occ-members p (cclosure env upvalue) h = refl
occ-members p (lclosure env q upvals) h = omega arith
occ-members p (open_upval level) h = refl
occ-members p (closed_upval v) h = omega arith
occ-members p (table mt array node) h = omega (
  arith,
  occ-append p (some_object Tag.table mt) (reverse array ++ node_members (reverse node)),
  occ-append p (reverse array) (node_members (reverse node)),
  occ-reverse p array,
  occ-node_members-reverse p node h,
)
occ-members p (thread gt stack top ci_tops) h =
    omega (arith, h p, occ-take-drop p (stack_limit top ci_tops + 1) stack)
