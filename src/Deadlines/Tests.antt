-- ===== src/Deadlines/Tests.antt =====
-- The theorems on deadlines, on a short history.
use ferricstore_python.Base.{◌≡◌, refl, List, [], ◌∷◌}
use ferricstore_python.Base.Assoc.{insert, erase, lookup}
use ferricstore_python.Deadlines.{
  Operation, thread_starts, thread_raises_with_ident, thread_raises, scheduling, cancelling,
  turning, closing, scheduler, replies, perform, perform_all, returned, schedule, cancel, turn,
  compact, drop_stale, push, is_active, keep, heapify,
}
use ferricstore_python.Deadlines.Refinement.{spec_replies, no_requests}
use ferricstore_python.Deadlines.Histories.{deadline_replies-spec_replies}
use ferricstore_python.Deadlines.Retention.{IsCompact, compacts}

abbrev history : List Operation
history =
    scheduling thread_raises 5 10
    ∷ scheduling thread_starts 1 30
    ∷ scheduling thread_starts 2 20
    ∷ cancelling 2
    ∷ scheduling thread_starts 3 10
    ∷ scheduling thread_raises_with_ident 4 50
    ∷ turning 15
    ∷ turning 40
    ∷ closing
    ∷ turning 50
    ∷ []

deadline_replies-spec_replies_example : replies history scheduler ≡ spec_replies history no_requests
deadline_replies-spec_replies_example = deadline_replies-spec_replies history

abbrev open_history : List Operation
open_history =
    scheduling thread_starts 1 30 ∷ scheduling thread_starts 2 20 ∷ cancelling 2 ∷ turning 15 ∷ []

open_history-returned :
    (perform (scheduling thread_starts 2 40) (perform_all open_history scheduler)).1 ≡ returned
unfolding schedule cancel turn compact drop_stale push insert erase lookup is_active keep heapify
open_history-returned = refl

compacts_example :
    IsCompact (perform (scheduling thread_starts 2 40) (perform_all open_history scheduler)).0
compacts_example = compacts open_history (scheduling thread_starts 2 40) open_history-returned
