-- ===== src/Release/Links.antt =====
-- The list surgery of the cases of `luaC_freeobj` (src/lgc.c) changes links and nothing else.
use luarc.Prelude.{
  ℕ, ◌≡◌, refl, ap, ◌∙◌, true, false, Option, none, some, length, ◌==◌, if◌then◌else◌, ◌&&◌, Bool,
  arith, set, ◌%◌,
}
use luarc.Object.{Ptr, Body, GcObject, null, table, thread}
use luarc.Heap.{
  cell, map_cell, State, store, set_next, set_prev, set_gcprev, isgray, is_propagate, is_sweep,
  sweeps_at,
}
use luarc.Heap.Cells.{cell-update, length-update}
use luarc.Unlink.{
  unlink_root, drop_gray_head, unlink_gray, adjust_sweep, unlink_udata, unlink_string,
}

-- What a cell holds beside its links.
pub record Core : Type 0 where
  pub ref : ℕ
  pub marked : ℕ
  pub body : Body

abbrev pub core : Option GcObject → Option Core
core none = none
core (some o) = some (record { ref = o.ref; marked = o.marked; body = o.body })

-- `t` is `s` up to links and list heads.
pub record SameCores (s t : State) : Type 0 where
  pub same_core : (p : Ptr) → core (cell t.heap p) ≡ core (cell s.heap p)
  pub same_length : length t.heap ≡ length s.heap
  pub same_roots : t.roots ≡ s.roots
  pub same_gc : t.tm_gc ≡ s.tm_gc

pub SameCores-refl : (s : State) → SameCores s s
SameCores-refl s = record {
  same_core = λ p. refl;
  same_length = refl;
  same_roots = refl;
  same_gc = refl;
}

pub SameCores-trans : {s t u : State} → SameCores s t → SameCores t u → SameCores s u
SameCores-trans a b = record {
  same_core = λ p. b.same_core p ∙ a.same_core p;
  same_length = b.same_length ∙ a.same_length;
  same_roots = b.same_roots ∙ a.same_roots;
  same_gc = b.same_gc ∙ a.same_gc;
}

pub store-SameCores :
    (p : Ptr) (f : GcObject → GcObject) (s : State)
    → ((c : Option GcObject) → core (map_cell f c) ≡ core c)
    → SameCores s (store p f s)
store-SameCores p f s keep = record {
  same_core = λ q. ground (arith, cell-update s.heap p f q, keep (cell s.heap p));
  same_length = length-update s.heap p f;
  same_roots = refl;
  same_gc = refl;
}

pub core-next :
    (x : Ptr) (c : Option GcObject) → core (map_cell (λ o. record o { next = x }) c) ≡ core c
core-next x none = refl
core-next x (some o) = refl

core-prev :
    (x : Ptr) (c : Option GcObject) → core (map_cell (λ o. record o { prev = x }) c) ≡ core c
core-prev x none = refl
core-prev x (some o) = refl

core-gcnext :
    (x : Ptr) (c : Option GcObject) → core (map_cell (λ o. record o { gcnext = x }) c) ≡ core c
core-gcnext x none = refl
core-gcnext x (some o) = refl

core-gcprev :
    (x : Ptr) (c : Option GcObject) → core (map_cell (λ o. record o { gcprev = x }) c) ≡ core c
core-gcprev x none = refl
core-gcprev x (some o) = refl

pub set_next-SameCores : (p x : Ptr) (s : State) → SameCores s (set_next p x s)
set_next-SameCores p x s = store-SameCores p _ s (core-next x)

pub set_prev-SameCores : (p x : Ptr) (s : State) → SameCores s (set_prev p x s)
set_prev-SameCores p x s = store-SameCores p _ s (core-prev x)

-- A conditional keeps the cores if both branches do.
pub if-SameCores :
    (b : Bool) {s t u : State} → SameCores s t → SameCores s u → SameCores s (if b then t else u)
if-SameCores true x y = x
if-SameCores false x y = y

-- A write to a list head or to the sweep position leaves the heap alone.
pub heads-SameCores :
    {s t : State} → t.heap ≡ s.heap → t.roots ≡ s.roots → t.tm_gc ≡ s.tm_gc → SameCores s t
heads-SameCores h r g = record {
  same_core = λ p. ap (λ x. core (cell x p)) h;
  same_length = ap length h;
  same_roots = r;
  same_gc = g;
}

pub unlink_root-SameCores : (p : Ptr) (o : GcObject) (s : State) → SameCores s (unlink_root p o s)
unfolding unlink_root
unlink_root-SameCores p o s =
    let first : SameCores s (if o.next == null then s else set_prev o.next o.prev s) =
      if-SameCores (o.next == null) (SameCores-refl s) (set_prev-SameCores o.next o.prev s) in
    if-SameCores (o.prev == null) (SameCores-trans first (heads-SameCores refl refl refl))
      (SameCores-trans first (set_next-SameCores o.prev o.next _))

drop_gray_head-SameCores : (b : Body) (p x : Ptr) (s : State) → SameCores s (drop_gray_head b p x s)
unfolding drop_gray_head
drop_gray_head-SameCores (table _ _ _) p x s =
    if-SameCores (s.gray == p) (heads-SameCores refl refl refl) (
      if-SameCores (s.grayagain == p) (heads-SameCores refl refl refl)
        (if-SameCores (s.weak == p) (heads-SameCores refl refl refl) (SameCores-refl s)))
drop_gray_head-SameCores (thread _ _ _ _) p x s =
    if-SameCores (s.gray == p) (heads-SameCores refl refl refl)
      (if-SameCores (s.grayagain == p) (heads-SameCores refl refl refl) (SameCores-refl s))
drop_gray_head-SameCores _ p x s = heads-SameCores refl refl refl

pub unlink_gray-SameCores : (p : Ptr) (o : GcObject) (s : State) → SameCores s (unlink_gray p o s)
unfolding unlink_gray
unlink_gray-SameCores p o s =
    let first : SameCores s (if o.gcnext == null then s else set_gcprev o.gcnext o.gcprev s) =
      if-SameCores (o.gcnext == null) (SameCores-refl s)
        (store-SameCores o.gcnext _ s (core-gcprev o.gcprev)) in
    if-SameCores (is_propagate s.gcstate && isgray o)
      (if-SameCores (o.gcprev == null)
        (SameCores-trans first (drop_gray_head-SameCores o.body p o.gcnext _))
        (SameCores-trans first (store-SameCores o.gcprev _ _ (core-gcnext o.gcnext))))
      (SameCores-refl s)

pub adjust_sweep-SameCores : (p : Ptr) (o : GcObject) (s : State) → SameCores s (adjust_sweep p o s)
unfolding adjust_sweep
adjust_sweep-SameCores p o s =
    if-SameCores (is_sweep s.gcstate && sweeps_at s.sweepgc p)
      (if-SameCores (o.prev == null) (heads-SameCores refl refl refl)
        (heads-SameCores refl refl refl))
      (SameCores-refl s)

pub unlink_udata-SameCores : (p : Ptr) (o : GcObject) (s : State) → SameCores s (unlink_udata p o s)
unfolding unlink_udata
unlink_udata-SameCores p o s =
    SameCores-trans
      (if-SameCores (o.next == null) (SameCores-refl s) (set_prev-SameCores o.next o.prev s))
      (set_next-SameCores o.prev o.next _)

pub unlink_string-SameCores :
    (p : Ptr) (o : GcObject) (hash : ℕ) (s : State) → SameCores s (unlink_string p o hash s)
unfolding unlink_string
unlink_string-SameCores p o hash s =
    let first =
      if-SameCores (o.prev == null)
        (heads-SameCores
          {t = record s { strt_hash = set s.strt_hash (hash % length s.strt_hash) o.next }} refl
          refl refl)
        (set_next-SameCores o.prev o.next s) in
    SameCores-trans
      (SameCores-trans first
        (if-SameCores (o.next == null) (SameCores-refl _) (set_prev-SameCores o.next o.prev _)))
      (heads-SameCores refl refl refl)
