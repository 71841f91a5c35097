-- ===== src/Find.antt =====
-- src/lstrlib.c: searching a string, `posrelat`, `lmemfind`, `push_onecapture`, `push_captures`,
-- `str_find_aux`, `gmatch_aux` and `str_gsub`. The arguments are given, checked and converted by the
-- C interface; a call of the matcher has fuel for its pattern.
pub mod Leftmost
pub mod Plain
pub mod Gsub
pub mod Examples
use luarc.Prelude.{
  ℕ, zero, suc, ◌+◌, ◌-◌, Bool, true, false, not, ◌&&◌, ◌||◌, Option, none, some, List, [], ◌∷◌,
  ◌++◌, length, get_or, get_elem?, take, drop, ltb, leb, ◌==◌, if◌then◌else◌,
}
use luarc.Prelude.Int.{ℤ, pos, negsuc}
use luarc.Chunk.{str_eq}
use luarc.Classes.{peek, tail, PatternError, invalid_index}
use luarc.Matcher.{
  Capture, Captures, CaptureLen, unfinished, at_position, bytes, Outcome, ended, err, out_of_fuel,
  match, at,
}

-- `posrelat`: a negative position counts from the end.
unfoldable pub posrelat : ℤ → (len : ℕ) → ℕ
posrelat (pos n) len = n
posrelat (negsuc n) len = len - n

abbrev pub next_index : Option ℕ → Option ℕ
next_index none = none
next_index (some i) = some (suc i)

-- `memchr` of the first `n` bytes.
unfoldable pub memchr : List ℕ → (c n : ℕ) → Option ℕ
memchr s c zero = none
memchr [] c (suc n) = none
memchr (x ∷ s) c (suc n) = let rest = memchr s c n in if x == c then some 0 else next_index rest

-- A round of the loop of `lmemfind` after `memchr`: `s1` stands at index `i`, and the bytes `s2` are to
-- follow the one that was found.
abbrev pub memfind_at : (again : ℕ → Option ℕ) → (i : ℕ) → (s1 s2 : List ℕ) → Option ℕ → Option ℕ
memfind_at again i s1 s2 none = none
memfind_at again i s1 s2 (some j) =
    let rest = again j in
    if str_eq (take (length s2) (drop (suc j) s1)) s2 then some (i + j) else rest

-- The loop, with `l1` positions left for the first byte `c`; the fuel is for a round at each of them.
unfoldable pub memfind_loop : (fuel i l1 : ℕ) → (c : ℕ) → (s1 s2 : List ℕ) → Option ℕ
unfolding memchr
memfind_loop zero i l1 c s1 s2 = none
memfind_loop (suc fuel) i l1 c s1 s2 =
    memfind_at (λ j. memfind_loop fuel (i + suc j) (l1 - suc j) c (drop (suc j) s1) s2) i s1 s2
      (memchr s1 c l1)

unfoldable pub lmemfind : (s1 s2 : List ℕ) → Option ℕ
unfolding memfind_loop
lmemfind s1 [] = some 0
lmemfind s1 (c ∷ s2) =
    if ltb (length s1) (suc (length s2))
    then none
    else memfind_loop (suc (length s1)) 0 (length s1 - length s2) c s1 s2

-- A value that a function of the library returns, or an error.
pub data Pushed : Type 0 where
  integer : ℕ → Pushed
  str : List ℕ → Pushed
  nil : Pushed

pub data Reply : Type 0 where
  pushed : List Pushed → Reply
  error : PatternError → Reply
  unfinished_capture : Reply
  exhausted : Reply

unfoldable pub push_onecapture : List ℕ → Captures → (i s e : ℕ) → Reply
push_onecapture src cs i s e = elim (get_elem? cs i) [
  | none ↦ if i == 0 then pushed (str (take (e - s) (drop s src)) ∷ []) else error invalid_index
  | some c ↦ elim c.len [
    | unfinished ↦ unfinished_capture
    | at_position ↦ pushed (integer (c.init + 1) ∷ [])
    | bytes n ↦ pushed (str (take n (drop c.init src)) ∷ [])
  ]
]

abbrev pub also : Reply → Reply → Reply
also (pushed xs) (pushed ys) = pushed (xs ++ ys)
also (pushed xs) r = r
also (error x) r = error x
also unfinished_capture r = unfinished_capture
also exhausted r = exhausted

-- The loop of `push_captures`, for `n` of them from `i` on.
unfoldable pub push_from : List ℕ → Captures → (s e i n : ℕ) → Reply
unfolding push_onecapture
push_from src cs s e i zero = pushed []
push_from src cs s e i (suc n) =
    also (push_onecapture src cs i s e) (push_from src cs s e (suc i) n)

-- `push_captures`, of the whole match where there are no captures and `whole` holds.
unfoldable pub push_captures : List ℕ → Captures → (whole : Bool) → (s e : ℕ) → Reply
unfolding push_from
push_captures src cs whole s e =
    push_from src cs s e 0 (if (length cs == 0) && whole then 1 else length cs)

-- A search for a pattern: where it matches, to where, with its captures.
pub data Search : Type 0 where
  found : (s e : ℕ) → Captures → Search
  nothing : Search
  failed : PatternError → Search
  spent : Search

abbrev pub or_further : (s : ℕ) → Outcome → Search → Search
or_further s (ended (some e) cs) further = found s e cs
or_further s (ended none cs) further = further
or_further s (err x) further = failed x
or_further s out_of_fuel further = spent

-- The loop of `str_find_aux`, from `s` on, with `left` bytes before the end.
unfoldable pub search : List ℕ → (p : List ℕ) → (anchor : Bool) → (s left : ℕ) → Search
unfolding match
search src p anchor s zero = or_further s (match (suc (length p)) src [] s p) nothing
search src p anchor s (suc left) =
    let further = search src p anchor (suc s) left in
    or_further s (match (suc (length p)) src [] s p) (if anchor then nothing else further)

-- `strpbrk(p, SPECIALS)`.
abbrev pub is_special : ℕ → Bool
is_special c =
    (c == b'^')
    || (c == b'$')
    || (c == b'*')
    || (c == b'+')
    || (c == b'?')
    || (c == b'.')
    || (c == b'(')
    || (c == b'[')
    || (c == b'%')
    || (c == b'-')

unfoldable pub has_special : List ℕ → Bool
has_special [] = false
has_special (c ∷ p) = let rest = has_special p in not (c == 0) && (is_special c || rest)

-- The start of the search, from the argument `init`.
unfoldable pub start_index : ℤ → (l1 : ℕ) → ℕ
unfolding posrelat
start_index init l1 = let i = posrelat init l1 - 1 in if ltb l1 i then l1 else i

abbrev pub found_plain : (init l2 : ℕ) → Option ℕ → Reply
found_plain init l2 none = pushed (nil ∷ [])
found_plain init l2 (some i) = pushed (integer (init + i + 1) ∷ integer (init + i + l2) ∷ [])

abbrev pub found_pattern : List ℕ → (find : Bool) → Search → Reply
found_pattern src true (found s e cs) =
    also (pushed (integer (s + 1) ∷ integer e ∷ [])) (push_captures src cs false 0 0)
found_pattern src false (found s e cs) = push_captures src cs true s e
found_pattern src find nothing = pushed (nil ∷ [])
found_pattern src find (failed x) = error x
found_pattern src find spent = exhausted

unfoldable pub str_find_aux : (find plain : Bool) → (s p : List ℕ) → (init : ℤ) → Reply
unfolding lmemfind has_special start_index search push_captures
str_find_aux find plain s p init =
    let i = start_index init (length s) in
    let anchor = peek p == b'^' in
    let p' = if anchor then tail p else p in
    if find && (plain || not (has_special p))
    then found_plain i (length p) (lmemfind (drop i s) p)
    else found_pattern s find (search s p' anchor i (length s - i))

-- `gmatch_aux`, of the position in its upvalue: the search, and the position for the next call.
unfoldable pub gmatch_aux : (s p : List ℕ) → (start : ℕ) → Search × ℕ
unfolding search
gmatch_aux s p start =
    let result =
      if leb start (length s) then search s p false start (length s - start) else nothing in
    elim result [
      | found src e cs ↦ (found src e cs, if e == src then suc e else e)
      | nothing ↦ (nothing, start)
      | failed x ↦ (failed x, start)
      | spent ↦ (spent, start)
    ]

-- What `str_gsub` gives: the new string and the number of substitutions.
pub data Substituted : Type 0 where
  substituted : List ℕ → ℕ → Substituted
  gsub_error : PatternError → Substituted
  gsub_spent : Substituted

-- A step of the loop of `str_gsub`: the text that it adds, the next position, the number of
-- substitutions, and whether the loop goes on.
pub record Step : Type 0 where
  pub added : List ℕ
  pub next : ℕ
  pub count : ℕ
  pub more : Bool

-- After the match: past it if it is not empty, else past one byte if there is one.
abbrev pub gsub_move : (text : List ℕ) → (added : List ℕ) → (src e n : ℕ) → Step
gsub_move text added src e n =
    if ltb src e
    then record { added = added; next = e; count = n; more = true }
    else if ltb src (length text)
    then record { added = added ++ at text src ∷ []; next = suc src; count = n; more = true }
    else record { added = added; next = src; count = n; more = false }

abbrev pub finish_gsub : (text acc : List ℕ) → (src n : ℕ) → Substituted
finish_gsub text acc src n = substituted (acc ++ drop src text) n

abbrev pub gsub_step :
    (add_value : Captures → ℕ → ℕ → List ℕ)
    → (text : List ℕ) → (src n : ℕ) → (e : Option ℕ) → Captures
    → Step
gsub_step add_value text src n (some e) cs = gsub_move text (add_value cs src e) src e (suc n)
gsub_step add_value text src n none cs = gsub_move text [] src src n

-- What a round leads to, where `go` goes on with the loop.
abbrev pub gsub_round :
    (add_value : Captures → ℕ → ℕ → List ℕ)
    → (text : List ℕ) → (anchor : Bool) → (go : (src n : ℕ) → List ℕ → Substituted) → (src n : ℕ)
    → (acc : List ℕ) → Outcome
    → Substituted
gsub_round add_value text anchor go src n acc (ended e cs) =
    let st = gsub_step add_value text src n e cs in
    let on = go st.next st.count (acc ++ st.added) in
    if st.more && not anchor then on else finish_gsub text (acc ++ st.added) st.next st.count
gsub_round add_value text anchor go src n acc (err x) = gsub_error x
gsub_round add_value text anchor go src n acc out_of_fuel = gsub_spent

-- The loop of `str_gsub`, over the text, with what is to replace a match as a function; the fuel is for
-- its rounds.
unfoldable pub gsub_loop :
    (add_value : Captures → ℕ → ℕ → List ℕ)
    → (text p : List ℕ) → (anchor : Bool) → (max_s : ℕ) → (fuel src n : ℕ) → (acc : List ℕ)
    → Substituted
unfolding match
gsub_loop add_value text p anchor max_s zero src n acc = gsub_spent
gsub_loop add_value text p anchor max_s (suc fuel) src n acc =
    let round =
      gsub_round add_value text anchor (gsub_loop add_value text p anchor max_s fuel) src n acc
        (match (suc (length p)) text [] src p) in
    if ltb n max_s then round else finish_gsub text acc src n

unfoldable pub str_gsub :
    (add_value : Captures → ℕ → ℕ → List ℕ) → (text p : List ℕ) → (max_s : ℕ) → Substituted
unfolding gsub_loop
str_gsub add_value text p max_s =
    let anchor = peek p == b'^' in
    gsub_loop add_value text (if anchor then tail p else p) anchor max_s (length text + 2) 0 0 []
