-- ===== src/Matcher.antt =====
-- src/lstrlib.c: the pattern matcher, `match` and what it calls. A position of the subject is an
-- index, and reading it at its end gives its closing zero. The captures up to `level` are a list. A
-- `goto init` is a call. Every call is made at a later position of the pattern, so that the fuel
-- bounds the depth of calls by the pattern's length.
pub mod Accepts
pub mod Loops
pub mod Bounds
pub mod Shorter
pub mod Decides
use luarc.Prelude.{
  ℕ, zero, suc, ◌+◌, ◌-◌, Bool, true, false, not, ◌&&◌, ◌||◌, Option, none, some, List, [], ◌∷◌,
  ◌++◌, length, get_or, get_elem?, set, take, drop, ltb, leb, ◌==◌, if◌then◌else◌,
}
use luarc.Chunk.{str_eq}
use luarc.Classes.{
  peek, tail, l_esc, isdigit, matchbracketclass, singlematch, classend, ClassEnd, ends_at,
  malformed, PatternError, missing_set, unbalanced, too_many_captures, invalid_index,
  invalid_capture,
}

-- The length of a capture: CAP_UNFINISHED, CAP_POSITION or its number of bytes.
pub data CaptureLen : Type 0 where
  unfinished at_position : CaptureLen
  bytes : ℕ → CaptureLen

pub record Capture : Type 0 where
  pub init : ℕ
  pub len : CaptureLen

abbrev pub Captures : Type 0
Captures = List Capture

abbrev pub max_captures : ℕ
max_captures = 32

-- What `match` gives: where the match ends, if there is one, and the captures; or an error.
pub data Outcome : Type 0 where
  ended : Option ℕ → Captures → Outcome
  err : PatternError → Outcome
  out_of_fuel : Outcome

-- The call of `match`: captures, position of the subject, pattern.
abbrev pub Match : Type 0
Match = Captures → ℕ → List ℕ → Outcome

-- `*s`, and `s < src_end && singlematch(*s, p, ep)`.
abbrev pub at : List ℕ → ℕ → ℕ
at src s = get_or src s 0

unfoldable pub matches_one : List ℕ → (s : ℕ) → (p ep : List ℕ) → Bool
matches_one src s p ep = ltb s (length src) && singlematch (at src s) p ep

abbrev pub is_unfinished : CaptureLen → Bool
is_unfinished unfinished = true
is_unfinished at_position = false
is_unfinished (bytes n) = false

abbrev pub or_else : Option ℕ → Option ℕ → Option ℕ
or_else (some l) o = some l
or_else none o = o

-- The loop of `capture_to_close`: the last unfinished capture, counted from `level`.
unfoldable pub last_unfinished : (level : ℕ) → Captures → Option ℕ
last_unfinished level [] = none
last_unfinished level (c ∷ cs) =
    or_else (last_unfinished (suc level) cs) (if is_unfinished c.len then some level else none)

-- `check_capture`, of the digit as a byte.
unfoldable pub check_capture : Captures → (digit : ℕ) → Option Capture
check_capture cs digit = if ltb digit b'1' then none else elim (get_elem? cs (digit - b'1')) [
  | none ↦ none
  | some c ↦ if is_unfinished c.len then none else some c
]

-- The loop of `matchbalance`, from `++s` on, with the bytes that are left.
unfoldable pub balance_loop : (b e cont s : ℕ) → List ℕ → Option ℕ
balance_loop b e cont s [] = none
balance_loop b e cont s (x ∷ rest) =
    let closed = balance_loop b e (cont - 1) (suc s) rest in
    let opened = balance_loop b e (suc cont) (suc s) rest in
    let on = balance_loop b e cont (suc s) rest in
    if x == e then (if cont == 1 then some (suc s) else closed) else if x == b then opened else on

-- `matchbalance` where the pattern has its two bytes.
unfoldable pub matchbalance : List ℕ → (s : ℕ) → (b e : ℕ) → Option ℕ
unfolding balance_loop
matchbalance src s b e =
    if at src s == b then balance_loop b e 1 (suc s) (drop (suc s) src) else none

-- `max_expand`: how often the item matches from `s` on, at most `left` times.
unfoldable pub expand_count : List ℕ → (p ep : List ℕ) → (s left : ℕ) → ℕ
unfolding matches_one
expand_count src p ep s zero = 0
expand_count src p ep s (suc left) =
    let more = expand_count src p ep (suc s) left in if matches_one src s p ep then suc more else 0

-- A match that was found, or another try where there is none.
abbrev pub or_retry : Outcome → (Captures → Outcome) → Outcome
or_retry (ended (some e) cs) try = ended (some e) cs
or_retry (ended none cs) try = try cs
or_retry (err x) try = err x
or_retry out_of_fuel try = out_of_fuel

-- Its second loop: the match of the rest after `i` repetitions, and then with fewer of them.
unfoldable pub expand_down : Match → (s : ℕ) → (ep : List ℕ) → (i : ℕ) → Captures → Outcome
expand_down call s ep zero cs = call cs s (tail ep)
expand_down call s ep (suc i) cs =
    or_retry (call cs (s + suc i) (tail ep)) (expand_down call s ep i)

unfoldable pub max_expand : Match → List ℕ → Captures → (s : ℕ) → (p ep : List ℕ) → Outcome
unfolding expand_count expand_down
max_expand call src cs s p ep = expand_down call s ep (expand_count src p ep s (length src - s)) cs

-- `min_expand`, with at most `left` more repetitions.
unfoldable pub min_expand : Match → List ℕ → (p ep : List ℕ) → (s left : ℕ) → Captures → Outcome
min_expand call src p ep s zero cs = call cs s (tail ep)
min_expand call src p ep s (suc left) cs = or_retry (call cs s (tail ep)) (λ cs'.
    let longer = min_expand call src p ep (suc s) left cs' in
    if matches_one src s p ep then longer else ended none cs')

-- The undoing of `start_capture`: `level--`.
abbrev pub drop_capture : Outcome → Outcome
drop_capture (ended none cs) = ended none (take (length cs - 1) cs)
drop_capture (ended (some e) cs) = ended (some e) cs
drop_capture (err x) = err x
drop_capture out_of_fuel = out_of_fuel

unfoldable pub start_capture : Match → Captures → (s : ℕ) → (p : List ℕ) → CaptureLen → Outcome
start_capture call cs s p what =
    let inner = call (cs ++ record { init = s; len = what } ∷ []) s p in
    if leb max_captures (length cs) then err too_many_captures else drop_capture inner

abbrev pub set_len : Captures → (l : ℕ) → CaptureLen → Captures
set_len [] l n = []
set_len (c ∷ cs) zero n = record c { len = n } ∷ cs
set_len (c ∷ cs) (suc l) n = c ∷ set_len cs l n

-- The undoing of `end_capture`.
abbrev pub reopen : (l : ℕ) → Outcome → Outcome
reopen l (ended none cs) = ended none (set_len cs l unfinished)
reopen l (ended (some e) cs) = ended (some e) cs
reopen l (err x) = err x
reopen l out_of_fuel = out_of_fuel

abbrev pub init_of : Captures → ℕ → ℕ
init_of [] l = 0
init_of (c ∷ cs) zero = c.init
init_of (c ∷ cs) (suc l) = init_of cs l

abbrev pub close_at : Match → Captures → (s : ℕ) → (p : List ℕ) → Option ℕ → Outcome
close_at call cs s p none = err invalid_capture
close_at call cs s p (some l) = reopen l (call (set_len cs l (bytes (s - init_of cs l))) s p)

unfoldable pub end_capture : Match → Captures → (s : ℕ) → (p : List ℕ) → Outcome
unfolding last_unfinished
end_capture call cs s p = close_at call cs s p (last_unfinished 0 cs)

-- `match_capture` of a capture: where its text ends at `s`. The length of a position capture, as a
-- size, is above every length.
unfoldable pub match_capture : List ℕ → (s : ℕ) → Capture → Option ℕ
match_capture src s c = elim c.len [
  | unfinished ↦ none
  | at_position ↦ none
  | bytes n ↦
      if leb n (length src - s) && str_eq (take n (drop c.init src)) (take n (drop s src))
      then some (s + n)
      else none
]

-- What the switches of `match` find at `p`, with where the pattern goes on.
pub data Item : Type 0 where
  finish end_anchor : Item
  open_position open_capture close_capture balance : List ℕ → Item
  frontier single : (p ep : List ℕ) → Item
  back_reference : (digit : ℕ) → List ℕ → Item
  bad : PatternError → Item

abbrev pub single_at : List ℕ → ClassEnd → Item
single_at p (ends_at ep) = single p ep
single_at p (malformed x) = bad x

abbrev pub frontier_at : List ℕ → ClassEnd → Item
frontier_at p (ends_at ep) = frontier p ep
frontier_at p (malformed x) = bad x

unfoldable pub item : List ℕ → Item
unfolding isdigit classend
item p =
    let dflt = single_at p (classend p) in
    if peek p == b'('
    then (if peek (tail p) == b')' then open_position (tail (tail p)) else open_capture (tail p))
    else if peek p == b')'
    then close_capture (tail p)
    else if peek p == l_esc
    then (if peek (tail p) == b'b'
        then balance (tail (tail p))
        else if peek (tail p) == b'f'
        then (if peek (tail (tail p)) == b'['
            then frontier_at (tail (tail p)) (classend (tail (tail p)))
            else bad missing_set)
        else if isdigit (peek (tail p))
        then back_reference (peek (tail p)) (tail (tail p))
        else dflt)
    else if peek p == 0
    then finish
    else if peek p == b'$'
    then (if peek (tail p) == 0 then end_anchor else dflt)
    else dflt

-- Going on at a position that was found, or failing.
abbrev pub go_on : Match → Captures → Option ℕ → List ℕ → Outcome
go_on call cs none p = ended none cs
go_on call cs (some s) p = call cs s p

-- What `*ep` asks for.
pub data Repetition : Type 0 where
  optional star plus minus once : Repetition

unfoldable pub repetition : List ℕ → Repetition
repetition ep =
    if peek ep == b'?'
    then optional
    else if peek ep == b'*'
    then star
    else if peek ep == b'+'
    then plus
    else if peek ep == b'-'
    then minus
    else once

-- The cases of the `default` of `match`: an item of the pattern, by what follows it.
unfoldable pub match_item :
    Match → List ℕ → Captures → (s : ℕ) → (p ep : List ℕ) → Repetition → Outcome
unfolding matches_one max_expand min_expand
match_item call src cs s p ep optional =
    or_retry (if matches_one src s p ep then call cs (suc s) (tail ep) else ended none cs)
      (λ cs'. call cs' s (tail ep))
match_item call src cs s p ep star = max_expand call src cs s p ep
match_item call src cs s p ep plus =
    if matches_one src s p ep then max_expand call src cs (suc s) p ep else ended none cs
match_item call src cs s p ep minus = min_expand call src p ep s (length src - s) cs
match_item call src cs s p ep once =
    if matches_one src s p ep then call cs (suc s) ep else ended none cs

-- The byte before `s`.
abbrev pub previous : List ℕ → ℕ → ℕ
previous src s = if s == 0 then 0 else at src (s - 1)

unfoldable pub at_frontier : List ℕ → (s : ℕ) → (p ep : List ℕ) → Bool
at_frontier src s p ep =
    not (matchbracketclass (previous src s) p ep) && matchbracketclass (at src s) p ep

abbrev pub refer : Match → List ℕ → Captures → (s : ℕ) → (p : List ℕ) → Option Capture → Outcome
refer call src cs s p none = err invalid_index
refer call src cs s p (some c) = go_on call cs (match_capture src s c) p

unfoldable pub dispatch : Match → List ℕ → Captures → (s : ℕ) → Item → Outcome
unfolding start_capture end_capture matchbalance at_frontier check_capture match_capture match_item
    repetition
dispatch call src cs s finish = ended (some s) cs
dispatch call src cs s end_anchor = ended (if s == length src then some s else none) cs
dispatch call src cs s (open_position p) = start_capture call cs s p at_position
dispatch call src cs s (open_capture p) = start_capture call cs s p unfinished
dispatch call src cs s (close_capture p) = end_capture call cs s p
dispatch call src cs s (balance p) =
    if (peek p == 0) || (peek (tail p) == 0)
    then err unbalanced
    else go_on call cs (matchbalance src s (peek p) (peek (tail p))) (tail (tail p))
dispatch call src cs s (frontier p ep) =
    if at_frontier src s p ep then call cs s ep else ended none cs
dispatch call src cs s (back_reference digit p) = refer call src cs s p (check_capture cs digit)
dispatch call src cs s (single p ep) = match_item call src cs s p ep (repetition ep)
dispatch call src cs s (bad x) = err x

unfoldable pub match : (fuel : ℕ) → List ℕ → Match
unfolding dispatch item
match zero src cs s p = out_of_fuel
match (suc fuel) src cs s p = dispatch (match fuel src) src cs s (item p)
