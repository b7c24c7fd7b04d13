-- ===== src/Int2Bits/Tests.antt =====
-- The digits of the argument that main passes: 32768 as a short int is -32768.
use tpt.Common.{◌≡◌, refl, [], ◌∷◌, negsuc}
use tpt.Int2Bits.{shortint2bin}

one_and_zeros :
    shortint2bin (negsuc 32767)
    ≡ 49 ∷ 48 ∷ 48 ∷ 48 ∷ 48 ∷ 48 ∷ 48 ∷ 48 ∷ 48 ∷ 48 ∷ 48 ∷ 48 ∷ 48 ∷ 48 ∷ 48 ∷ 48 ∷ 0 ∷ []
unfolding shortint2bin
one_and_zeros = refl
