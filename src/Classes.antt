-- ===== src/Classes.antt =====
-- src/lstrlib.c: the items of patterns, `classend`, `match_class`, `matchbracketclass` and
-- `singlematch`. A pattern is the list of bytes from a position on, before its closing zero, and
-- reading it at its end gives that zero. The functions of ctype.h are those of the C locale.
use luarc.Prelude.{
  ℕ, zero, suc, ◌+◌, Bool, true, false, not, ◌&&◌, ◌||◌, Option, none, some, List, [], ◌∷◌, length,
  ltb, leb, ◌==◌, if◌then◌else◌,
}

-- `*p` and `p + 1`.
abbrev pub peek : List ℕ → ℕ
peek [] = 0
peek (c ∷ p) = c

abbrev pub tail : List ℕ → List ℕ
tail [] = []
tail (c ∷ p) = p

abbrev pub l_esc : ℕ
l_esc = b'%'

abbrev pub within : (lo hi c : ℕ) → Bool
within lo hi c = leb lo c && leb c hi

unfoldable pub isdigit : ℕ → Bool
isdigit c = within b'0' b'9' c

unfoldable pub isupper : ℕ → Bool
isupper c = within b'A' b'Z' c

unfoldable pub islower : ℕ → Bool
islower c = within b'a' b'z' c

unfoldable pub isalpha : ℕ → Bool
unfolding isupper islower
isalpha c = isupper c || islower c

unfoldable pub isalnum : ℕ → Bool
unfolding isalpha isdigit
isalnum c = isalpha c || isdigit c

unfoldable pub iscntrl : ℕ → Bool
iscntrl c = ltb c 32 || (c == 127)

unfoldable pub isspace : ℕ → Bool
isspace c = (c == 32) || within 9 13 c

unfoldable pub ispunct : ℕ → Bool
unfolding isalnum
ispunct c = within 33 126 c && not (isalnum c)

unfoldable pub isxdigit : ℕ → Bool
unfolding isdigit
isxdigit c = isdigit c || within b'a' b'f' c || within b'A' b'F' c

unfoldable pub tolower : ℕ → ℕ
unfolding isupper
tolower c = if isupper c then c + 32 else c

-- What a class letter in lower case stands for.
unfoldable pub in_class : (c letter : ℕ) → Option Bool
unfolding isalpha iscntrl isdigit islower ispunct isspace isupper isalnum isxdigit
in_class c letter =
    if letter == b'a'
    then some (isalpha c)
    else if letter == b'c'
    then some (iscntrl c)
    else if letter == b'd'
    then some (isdigit c)
    else if letter == b'l'
    then some (islower c)
    else if letter == b'p'
    then some (ispunct c)
    else if letter == b's'
    then some (isspace c)
    else if letter == b'u'
    then some (isupper c)
    else if letter == b'w'
    then some (isalnum c)
    else if letter == b'x'
    then some (isxdigit c)
    else if letter == b'z'
    then some (c == 0)
    else none

unfoldable pub match_class : (c cl : ℕ) → Bool
unfolding in_class tolower islower
match_class c cl = elim (in_class c (tolower cl)) [
  | none ↦ cl == c
  | some res ↦ if islower cl then res else not res
]

-- The loop of `matchbracketclass`, at the bytes from `++p` on with `skip` of them to pass over; the
-- set ends where `close` bytes of the pattern are left.
unfoldable pub bracket_loop : (sig : Bool) (c close skip : ℕ) → List ℕ → Bool
unfolding match_class
bracket_loop sig c close skip [] = not sig
bracket_loop sig c close (suc skip) (x ∷ p) = bracket_loop sig c close skip p
bracket_loop sig c close zero (x ∷ p) =
    let escaped = x == l_esc in
    let range = (peek p == b'-') && ltb close (length (tail p)) in
    let passed = if escaped then 1 else if range then 2 else 0 in
    let hit =
      if escaped
      then match_class c (peek p)
      else if range
      then leb x c && leb c (peek (tail p))
      else x == c in
    let rest = bracket_loop sig c close passed p in
    if ltb close (length (x ∷ p)) then (if hit then sig else rest) else not sig

-- `matchbracketclass`, of a set at `[` that ends with the `]` before `ep`.
unfoldable pub matchbracketclass : (c : ℕ) (p ep : List ℕ) → Bool
unfolding bracket_loop
matchbracketclass c p ep =
    if peek (tail p) == b'^'
    then bracket_loop false c (suc (length ep)) 0 (tail (tail p))
    else bracket_loop true c (suc (length ep)) 0 (tail p)

unfoldable pub singlematch : (c : ℕ) (p ep : List ℕ) → Bool
unfolding matchbracketclass match_class
singlematch c p ep =
    if peek p == b'.'
    then true
    else if peek p == l_esc
    then match_class c (peek (tail p))
    else if peek p == b'['
    then matchbracketclass c p ep
    else peek p == c

-- The loop of `classend` that looks for the `]`: what follows it, or nothing at the end of the
-- pattern. The byte that it starts at is no end of the set.
unfoldable pub class_close : List ℕ → Option (List ℕ)
class_close [] = none
class_close (x ∷ []) = none
class_close (x ∷ (y ∷ q)) =
    let far = class_close q in
    let near = class_close (y ∷ q) in
    if x == 0
    then none
    else if (x == l_esc) && not (y == 0)
    then (if peek q == b']' then some (tail q) else far)
    else if y == b']'
    then some q
    else near

pub data PatternError : Type 0 where
  ends_with_escape missing_bracket missing_set unbalanced too_many_captures invalid_index
        invalid_capture :
      PatternError

pub data ClassEnd : Type 0 where
  ends_at : List ℕ → ClassEnd
  malformed : PatternError → ClassEnd

abbrev pub closed_set : Option (List ℕ) → ClassEnd
closed_set none = malformed missing_bracket
closed_set (some ep) = ends_at ep

unfoldable pub classend : List ℕ → ClassEnd
unfolding class_close
classend p =
    if peek p == l_esc
    then (if peek (tail p) == 0 then malformed ends_with_escape else ends_at (tail (tail p)))
    else if peek p == b'['
    then closed_set (class_close (if peek (tail p) == b'^' then tail (tail p) else tail p))
    else ends_at (tail p)
