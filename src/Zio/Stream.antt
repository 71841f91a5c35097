-- ===== src/Zio/Stream.antt =====
-- `luaZ_read` (src/lzio.c) against the flat bytes that the loader of src/lundump.c reads.
use mathlib.Core.List.{append_assoc}
use mathlib.Core.Path.{ap₂}
use luarc.Prelude.{
  ℕ, zero, suc, ◌+◌, ◌-◌, min, ◌<◌, ◌≤◌, ◌≡◌, ◌⊎◌, inl, inr, refl, sym, ap, ◌∙◌, none, some, List,
  [], ◌∷◌, ◌++◌, length, take, drop, arith,
}
use luarc.Undump.{Result, ok, err, fault, Error, and_then, pure, load_block}
use luarc.Zio.{
  Reader, Zio, Peek, filled, fill, put_back, peek, lookahead, Taken, turn, read_loop, zread,
}

-- The bytes that a reader gives from its data to the end of the stream.
pub data Reads {D : Type 0} (read : Reader D) : D → List ℕ → Type 0 where
  at_end : {d d' : D} → read d ≡ ([], d') → Reads read d []
  piece :
      {d d' : D} {b : ℕ} {bs xs : List ℕ}
      → read d ≡ (b ∷ bs, d')
      → Reads read d' xs
      → Reads read d (b ∷ bs ++ xs)

-- The bytes still to come from a stream: those in the buffer, and those that the reader will give.
pub record Holds {D : Type 0} (read : Reader D) (z : Zio D) (s : List ℕ) : Type 0 where
  pub later : List ℕ
  pub reads : Reads read z.source later
  pub all : s ≡ z.buffer ++ later

module _ {D : Type 0} (read : Reader D) where
  -- What a look at the next byte gives: the end of an empty stream, or a buffer that is not empty.
  data Looked (s : List ℕ) : Peek D → Type 0 where
    ended : {z : Zio D} → s ≡ [] → Looked s (none, z)
    there : {b : ℕ} {z : Zio D} → Holds read z s → 0 < length z.buffer → Looked s (some b, z)

  filled-Looked : (d : D) (s : List ℕ) → Reads read d s → Looked s (put_back (filled (read d)))
  filled-Looked d s (at_end e) = rw (e) (ended refl)
  filled-Looked d s (piece {xs = xs} e more) =
      rw (e) (there (record { later = xs; reads = more; all = refl }) (omega arith))

  peek-Looked :
      (buffer : List ℕ) (z : Zio D) (s : List ℕ)
      → z.buffer ≡ buffer
      → Holds read z s
      → Looked s (peek buffer z (fill read z))
  peek-Looked [] z s e h =
      let later : s ≡ h.later = rw (h.all, e) refl in
      rw (later) (filled-Looked z.source h.later h.reads)
  peek-Looked (b ∷ bs) z s e h = there h (rw (e) (omega arith))

  lookahead-Looked : (z : Zio D) (s : List ℕ) → Holds read z s → Looked s (lookahead read z)
  unfolding lookahead
  lookahead-Looked z s h = peek-Looked z.buffer z s refl h

and_then-pure : (r : Result (List ℕ)) → r ≡ and_then r pure
and_then-pure (ok bs z) = refl
and_then-pure (err e) = refl
and_then-pure fault = refl

and_then-cons :
    (x : ℕ) (xs : List ℕ) (r : Result (List ℕ))
    → and_then (and_then r (λ bs. pure (xs ++ bs))) (λ bs. pure (x ∷ bs))
      ≡ and_then r (λ bs. pure (x ∷ xs ++ bs))
and_then-cons x xs (ok bs z) = refl
and_then-cons x xs (err e) = refl
and_then-cons x xs fault = refl

load_block-split :
    (xs s : List ℕ) (k : ℕ)
    → load_block (length xs + k) (xs ++ s) ≡ and_then (load_block k s) (λ bs. pure (xs ++ bs))
unfolding load_block
load_block-split [] s k =
    let same : 0 + k ≡ k = omega arith in rw (same) (and_then-pure (load_block k s))
load_block-split (x ∷ xs) s k =
    let next : suc (length xs) + k ≡ suc (length xs + k) = omega arith in
    rw (next, load_block-split xs s k) (and_then-cons x xs (load_block k s))

load_block-end : (n : ℕ) → load_block (suc n) [] ≡ err Error.unexpected_end
unfolding load_block
load_block-end n = refl

load_block-none : (s : List ℕ) → load_block 0 s ≡ ok [] s
unfolding load_block
load_block-none s = refl

append-take-drop : (m : ℕ) (xs : List ℕ) → take m xs ++ drop m xs ≡ xs
append-take-drop zero xs = refl
append-take-drop (suc m) [] = refl
append-take-drop (suc m) (x ∷ xs) = ap (λ (t : List ℕ). x ∷ t) (append-take-drop m xs)

length-take : (m : ℕ) (xs : List ℕ) → m ≤ length xs → length (take m xs) ≡ m
length-take zero xs h = refl
length-take (suc m) [] h = omega arith
length-take (suc m) (x ∷ xs) h = omega (arith, length-take m xs (omega arith))

-- A read agrees with `LoadBlock` over the flat bytes: it misses no byte, and gives the block and a
-- stream that holds what follows; or it misses some, and the bytes end too early.
abbrev pub Agrees : {D : Type 0} → Reader D → ℕ → List ℕ → Taken D → Type 0
Agrees read n s t =
    ((t.missing ≡ 0)
      × (rest : List ℕ) × (load_block n s ≡ ok t.bytes rest)
      × Holds read t.rest rest)
    ⊎ ((0 < t.missing) × (load_block n s ≡ err Error.unexpected_end))

module _ {D : Type 0} (read : Reader D) where
  turn-Agrees :
      (loop : Zio D → ℕ → Taken D) (n : ℕ) (s : List ℕ) (p : Peek D)
      → ((z : Zio D) (k : ℕ) (s : List ℕ) → k < n → Holds read z s → Agrees read k s (loop z k))
      → 0 < n
      → Looked read s p
      → Agrees read n s (turn loop n p)
  turn-Agrees loop zero s p ih pos l = absurd (omega arith)
  turn-Agrees loop (suc n) s (none, z) ih pos (ended e) =
      inr (omega arith, rw (e) (load_block-end n))
  turn-Agrees loop (suc n) s (some b, z) ih pos (there h some_left) =
      let m : ℕ = min (suc n) (length z.buffer) in
      let after : List ℕ = drop m z.buffer ++ h.later in
      let counted : length (take m z.buffer) ≡ m = length-take m z.buffer (omega arith) in
      let split : s ≡ take m z.buffer ++ after =
        h.all
        ∙ (ap (λ (t : List ℕ). t ++ h.later) (sym (append-take-drop m z.buffer))
            ∙ append_assoc (take m z.buffer) (drop m z.buffer) h.later) in
      let size : suc n ≡ length (take m z.buffer) + (suc n - m) = omega arith in
      let whole =
        ap₂ load_block size split ∙ load_block-split (take m z.buffer) after (suc n - m) in
      elim (ih (record z { buffer = drop m z.buffer }) (suc n - m) after (omega arith)
        (record { later = h.later; reads = h.reads; all = refl })) [
          | inl r ↦ inl (r.0, r.1, whole ∙ (rw (r.2) refl), r.3)
          | inr r ↦ inr (r.0, whole ∙ (rw (r.1) refl))
        ]

  read_loop-Agrees :
      (fuel n : ℕ) (z : Zio D) (s : List ℕ)
      → n < fuel
      → Holds read z s
      → Agrees read n s (read_loop read fuel z n)
  unfolding read_loop
  read_loop-Agrees zero n z s le h = absurd (omega arith)
  read_loop-Agrees (suc fuel) zero z s le h = inl (refl, s, load_block-none s, h)
  read_loop-Agrees (suc fuel) (suc n) z s le h =
      turn-Agrees (read_loop read fuel) (suc n) s (lookahead read z)
        (λ z' k s' lt h'. read_loop-Agrees fuel k z' s' (omega arith) h') (omega arith)
        (lookahead-Looked read z s h)

  -- Reading `n` bytes from a stream that holds `s`, however the reader cuts it into pieces, misses
  -- none and gives the block that `LoadBlock` takes off `s`, leaving a stream that holds what follows;
  -- or it misses some, just where `LoadBlock` fails with "unexpected end".
  pub zread-Agrees :
      (n : ℕ) (z : Zio D) (s : List ℕ) → Holds read z s → Agrees read n s (zread read z n)
  unfolding zread
  zread-Agrees n z s h = read_loop-Agrees (suc n) n z s (omega arith) h
