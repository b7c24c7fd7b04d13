-- ===== src/SpliceProxy/Splice/Tests.antt =====
-- Four bytes on their way to the client, and the instances of the theorems there.
use tpt.Common.{◌≡◌, refl, true, some, List, [], ◌∷◌, pos}
use tpt.SpliceProxy.Splice.{Flow, interrupted, moves, In, again, into, make_splice}
use tpt.SpliceProxy.Splice.Laws.{Conserves, make_splice-Conserves}

abbrev nothing : Flow
nothing = record { pipe = []; out = [] }

-- The client takes two of four bytes, and nothing more comes from the server.
abbrev half : List In
half = into (1 ∷ 2 ∷ 3 ∷ 4 ∷ []) (moves 2 ∷ []) ∷ again ∷ []

abbrev whole : List In
whole = into (1 ∷ 2 ∷ 3 ∷ 4 ∷ []) (interrupted ∷ moves 9 ∷ []) ∷ again ∷ []

-- make_splice asks for more input, although two bytes stand in the pipe.
leaves_half :
    make_splice true 100 half nothing
    ≡ (some (pos 1), record { pipe = 3 ∷ 4 ∷ []; out = 1 ∷ 2 ∷ [] })
unfolding make_splice
leaves_half = refl

make_splice-Conserves_example : Conserves 100 half nothing (make_splice true 100 half nothing)
make_splice-Conserves_example = make_splice-Conserves 100 half nothing
