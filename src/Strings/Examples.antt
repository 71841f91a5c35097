-- ===== src/Strings/Examples.antt =====
-- Interned strings of src/lstring.c.
use luarc.Prelude.{◌≡◌, refl, false, [], ◌∷◌, length, arith}
use luarc.Chunk.{Str}
use luarc.Strings.{
  StringTable, hash_loop, hash_of, chain_in, chain_all, rehash, resize, newlstr, find, luas_newlstr,
}
use luarc.Strings.Added.{IsInterned, Interns}
use luarc.Strings.Interned.{luas_newlstr-Interns, luas_newlstr_again}

abbrev empty_table : StringTable
empty_table = record { hash = [] ∷ [] ∷ []; nuse = 0; sweepstring = false; currentwhite = 1 }

empty-IsInterned : IsInterned empty_table
empty-IsInterned = record {
  some_chain = omega arith;
  placed = (tt, (tt, tt));
  single = λ str. omega arith;
  counted = refl;
}

abbrev end_word : Str
end_word = b'e' ∷ b'n' ∷ b'd' ∷ []

-- Three strings do not fit a table of two chains, which doubles.
grown :
    length
      (luas_newlstr
        (luas_newlstr (luas_newlstr empty_table 10 end_word).0 11 (b'a' ∷ [])).0
        12
        (b'b' ∷ [])).0.hash
    ≡ 4
unfolding luas_newlstr newlstr find chain_in chain_all rehash resize hash_of hash_loop
grown = refl

luas_newlstr-Interns_example : Interns empty_table end_word (luas_newlstr empty_table 10 end_word)
luas_newlstr-Interns_example = luas_newlstr-Interns empty_table end_word empty-IsInterned 10

luas_newlstr_again_example :
    (luas_newlstr (luas_newlstr empty_table 10 end_word).0 11 end_word).1
    ≡ (luas_newlstr empty_table 10 end_word).1
luas_newlstr_again_example = luas_newlstr_again empty_table end_word 10 11 empty-IsInterned
