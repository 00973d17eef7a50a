-- ===== src/Pending/Tests.antt =====
-- The budget's theorems on two requests under limits.
use ferricstore_python.Base.{◌≡◌, ◌<◌, ◌↔◌, refl, some, List, [], ◌∷◌, arith}
use ferricstore_python.Base.Exec.{ok, err}
use ferricstore_python.Base.Assoc.{lookup}
use ferricstore_python.Pending.{RequestBudget, fresh, set_size, remaining_bytes, too_many_bytes}
use ferricstore_python.Pending.Accounting.{
  IsValid, Operation, reserving, sizing, releasing, clearing, perform_all, perform_all-IsValid,
  remaining_bytes-set_size,
}

fresh-IsValid : IsValid (fresh (some 2) (some 100))
fresh-IsValid = record { keys = tt; total = refl; few = omega arith; small = omega arith }

abbrev steps : List Operation
steps =
    reserving 1
    ∷ sizing 1 40
    ∷ reserving 2
    ∷ sizing 2 70
    ∷ releasing 1
    ∷ sizing 2 70
    ∷ reserving 2
    ∷ clearing
    ∷ []

perform_all-IsValid_example : IsValid (perform_all steps (fresh (some 2) (some 100)))
perform_all-IsValid_example = perform_all-IsValid steps (fresh (some 2) (some 100)) fresh-IsValid

-- Two requests, of 40 and 10 bytes.
abbrev two_requests : RequestBudget
two_requests = record {
  max_requests = some 2;
  max_bytes = some 100;
  sizes = (1, 40) ∷ (2, 10) ∷ [];
  total_bytes = 50;
}

two_requests-IsValid : IsValid two_requests
unfolding lookup
two_requests-IsValid = record {
  keys = (refl, (refl, tt));
  total = refl;
  few = omega arith;
  small = omega arith;
}

two_requests-remaining : remaining_bytes 1 two_requests ≡ ok (some 90) two_requests
unfolding remaining_bytes lookup
two_requests-remaining = refl

remaining_bytes-set_size_example :
    (set_size 1 91 two_requests ≡ err too_many_bytes two_requests) ↔ (90 < 91)
remaining_bytes-set_size_example =
    remaining_bytes-set_size 1 91 100 90 two_requests two_requests-IsValid refl
      two_requests-remaining
