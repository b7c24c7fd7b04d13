-- ===== src/BsonApi/Values/Tests.antt =====
-- Documents as their elements and bytes as keys and values in turn: an instance of the interface Storage.
use tpt.Common.{ℕ, ◌≡◌, refl, sym, ap, ◌∙◌, some, List, [], ◌∷◌}
use tpt.BsonApi.Docs.Tests.{Plain, plain, same_some}
use tpt.BsonApi.Values.{Storage}

abbrev flat : Plain → List ℕ
flat [] = []
flat ((k, v) ∷ es) = k ∷ v ∷ flat es

abbrev unflat : List ℕ → Plain
unflat (k ∷ v ∷ ns) = (k, v) ∷ unflat ns
unflat _ = []

unflat-flat : (d : Plain) → unflat (flat d) ≡ d
unflat-flat [] = refl
unflat-flat (e ∷ es) = ap (λ (l : Plain). e ∷ l) (unflat-flat es)

storage : Storage plain
unfolding plain
storage = record {
  fresh = [];
  data_of = flat;
  bson_new_from_data = λ bytes. some (unflat bytes);
  bson_uint32_to_string = λ i. i;
  fresh-elements = refl;
  from_data-elements = λ d d' e. sym (same_some (unflat (flat d)) d' e) ∙ unflat-flat d;
}
