-- ===== src/Zio.antt =====
-- src/lzio.c: the buffered stream over a reader. The reader is the caller's function: from its data it
-- gives the next piece, which is empty at the end of the stream, and its data for the next call.
pub mod Examples
pub mod Stream
use luarc.Prelude.{
  ℕ, zero, suc, ◌-◌, min, Option, none, some, List, [], ◌∷◌, ◌++◌, length, take, drop,
}

abbrev pub Reader : Type 0 → Type 0
Reader D = D → List ℕ × D

-- `buffer` are the `n` bytes from `p`, and `source` is the data of the reader.
pub record Zio (D : Type 0) : Type 0 where
  pub buffer : List ℕ
  pub source : D

-- A byte, or EOZ, and the stream after it.
abbrev pub Peek : Type 0 → Type 0
Peek D = Option ℕ × Zio D

abbrev pub filled : {D : Type 0} → List ℕ × D → Peek D
filled ([], d) = (none, record { buffer = []; source = d })
filled (b ∷ bs, d) = (some b, record { buffer = bs; source = d })

-- `luaZ_fill`, where the buffer is empty.
abbrev pub fill : {D : Type 0} → Reader D → Zio D → Peek D
fill read z = filled (read z.source)

abbrev pub put_back : {D : Type 0} → Peek D → Peek D
put_back (none, z) = (none, z)
put_back (some b, z) = (some b, record z { buffer = b ∷ z.buffer })

abbrev pub peek : {D : Type 0} → List ℕ → Zio D → Peek D → Peek D
peek [] z f = put_back f
peek (b ∷ bs) z f = (some b, z)

-- `luaZ_lookahead`.
unfoldable pub lookahead : {D : Type 0} → Reader D → Zio D → Peek D
lookahead read z = peek z.buffer z (fill read z)

-- What `luaZ_read` returns, the bytes that it has written, and the stream.
pub record Taken (D : Type 0) : Type 0 where
  pub missing : ℕ
  pub bytes : List ℕ
  pub rest : Zio D

-- One turn of the loop, with the turns after it.
abbrev pub turn : {D : Type 0} → (Zio D → ℕ → Taken D) → ℕ → Peek D → Taken D
turn loop n (none, z) = record { missing = n; bytes = []; rest = z }
turn loop n (some b, z) =
    let m = min n (length z.buffer) in
    let after = loop (record z { buffer = drop m z.buffer }) (n - m) in
    record after { bytes = take m z.buffer ++ after.bytes }

-- `luaZ_read`: the loop takes at least a byte in each turn.
unfoldable pub read_loop : {D : Type 0} → Reader D → (fuel : ℕ) → Zio D → ℕ → Taken D
read_loop read zero z n = record { missing = n; bytes = []; rest = z }
read_loop read (suc fuel) z zero = record { missing = 0; bytes = []; rest = z }
read_loop read (suc fuel) z (suc n) = turn (read_loop read fuel) (suc n) (lookahead read z)

unfoldable pub zread : {D : Type 0} → Reader D → Zio D → ℕ → Taken D
zread read z n = read_loop read (suc n) z n
