-- ===== src/Shutdown/Once/Tests.antt =====
-- `taken_lem`, applied to a request that two responses answer.
use csqtt_antinet_module.Protocol.{disconnected}
use csqtt_antinet_module.Shutdown.{
  new, register, mark_activity, next_activity, lead, observe_control_response, is_unrelated,
  complete,
}
use csqtt_antinet_module.Shutdown.Once.{
  Call, registered, requested, responded, marked, finished, taken, step, taken_lem,
}
use csqtt_antinet_module.Prelude.{
  starts_with, bytes_eq, ℕ, ◌≤◌, ◌≡◌, refl, List, [], ◌∷◌, starts_with, bytes_eq,
}

abbrev calls : List (Call ℕ)
calls =
    registered 7 1
    ∷ marked 0
    ∷ requested
    ∷ responded disconnected
    ∷ responded disconnected
    ∷ finished
    ∷ []

first_answer : taken ℕ calls (new ℕ) ≡ 1
unfolding taken step register mark_activity next_activity lead observe_control_response is_unrelated
    complete starts_with bytes_eq
first_answer = refl

taken_lem_example : taken ℕ calls (new ℕ) ≤ 1
taken_lem_example = taken_lem ℕ calls (new ℕ)
