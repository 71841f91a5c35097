-- ===== src/Zio/Examples.antt =====
-- A stream of src/lzio.c whose reader gives three pieces.
use luarc.Prelude.{ℕ, ◌≡◌, refl, List, [], ◌∷◌}
use luarc.Zio.{Zio, lookahead, read_loop, zread}
use luarc.Zio.Stream.{at_end, piece, Holds, Agrees, zread-Agrees}

-- The reader's data are the pieces that it has left.
abbrev next_piece : List (List ℕ) → List ℕ × List (List ℕ)
next_piece [] = ([], [])
next_piece (p ∷ ps) = (p, ps)

abbrev pieces : Zio (List (List ℕ))
pieces = record { buffer = 1 ∷ []; source = (2 ∷ 3 ∷ []) ∷ (4 ∷ []) ∷ [] }

pieces-Holds : Holds next_piece pieces (1 ∷ 2 ∷ 3 ∷ 4 ∷ [])
pieces-Holds = record {
  later = 2 ∷ 3 ∷ 4 ∷ [];
  reads = piece refl (piece refl (at_end refl));
  all = refl;
}

-- Three bytes are taken from two pieces; of six, two are missing.
three_taken :
    ((zread next_piece pieces 3).missing ≡ 0)
    × ((zread next_piece pieces 3).bytes ≡ 1 ∷ 2 ∷ 3 ∷ [])
    × ((zread next_piece pieces 6).missing ≡ 2)
unfolding zread read_loop lookahead
three_taken = (refl, refl, refl)

zread-Agrees_example : Agrees next_piece 3 (1 ∷ 2 ∷ 3 ∷ 4 ∷ []) (zread next_piece pieces 3)
zread-Agrees_example = zread-Agrees next_piece 3 pieces (1 ∷ 2 ∷ 3 ∷ 4 ∷ []) pieces-Holds
