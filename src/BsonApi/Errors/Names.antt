-- ===== src/BsonApi/Errors/Names.antt =====
-- bson_err_msg names the codes of errors and nothing else.
use tpt.Common.{none, some, ℤ, int_eq, ◌≡◌, ◌≢◌, ◌⊎◌, inl, inr, refl, false, arith}
use tpt.Common.Switch.{Listed, switch_cases}
use tpt.BsonApi.Errors.{BsonApiErr, success, err_code, err_name, err_cases, bson_err_msg}

others-Listed : (e : BsonApiErr) → e ≢ success → Listed e err_cases
others-Listed success ne = absurd (ne refl)
others-Listed e ne = ground arith

success_not_Listed : (e : BsonApiErr) → Listed e err_cases → e ≢ success
success_not_Listed e l same = ground arith

-- For every number, either it is the code of an error other than success and bson_err_msg returns the name of that error,
-- or it is the code of no such error and bson_err_msg returns NULL.
pub bson_err_msg_cases :
    (c : ℤ)
    → ((e : BsonApiErr) × (e ≢ success) × (c ≡ err_code e) × (bson_err_msg c ≡ some (err_name e)))
      ⊎ (((e : BsonApiErr) → e ≢ success → int_eq c (err_code e) ≡ false) × (bson_err_msg c ≡ none))
unfolding bson_err_msg
bson_err_msg_cases c = elim (switch_cases err_code err_name c err_cases) [
  | inl (e, l, same, found) ↦ inl (e, success_not_Listed e l, same, found)
  | inr (none_fits, nothing) ↦ inr ((λ e ne. none_fits e (others-Listed e ne)), nothing)
]
