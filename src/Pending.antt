-- ===== src/Pending.antt =====
-- `PendingRequestBudget` of `protocol_lifecycle.py`: the requests that await a response, counted and
-- measured against the two admission limits.
pub mod Accounting
mod Tests
use ferricstore_python.Base.{
  ℕ, zero, suc, ◌+◌, ◌-◌, ◌*◌, Bool, true, false, Option, none, some, List, [], ◌∷◌, length, ltb,
  leb, if◌then◌else◌,
}
use ferricstore_python.Base.Exec.{Outcome, ok, err, Exec}
use ferricstore_python.Base.Assoc.{nat_eq, lookup, insert, erase}

pub data Error : Type 0 where
  duplicate_request too_many_requests missing_request too_many_bytes too_many_items : Error

pub record RequestBudget : Type 0 where
  pub max_requests : Option ℕ
  pub max_bytes : Option ℕ
  pub sizes : List (ℕ × ℕ)
  pub total_bytes : ℕ

abbrev pub above : ℕ → Option ℕ → Bool
above n none = false
above n (some m) = ltb m n

unfoldable pub check_batch_item_limit : ℕ → Option ℕ → Option Error
check_batch_item_limit n limit = if above n limit then some too_many_items else none

-- `DEFAULT_MAX_INFLIGHT_REQUESTS`, `DEFAULT_MAX_PENDING_REQUEST_BYTES` and `DEFAULT_MAX_BATCH_ITEMS`.
abbrev pub default_max_inflight_requests : ℕ
default_max_inflight_requests = 4096

abbrev pub default_max_pending_request_bytes : ℕ
default_max_pending_request_bytes = 64 * 1024 * 1024

abbrev pub default_max_batch_items : ℕ
default_max_batch_items = 10000

abbrev pub fresh : Option ℕ → Option ℕ → RequestBudget
fresh max_requests max_bytes = record {
  max_requests = max_requests;
  max_bytes = max_bytes;
  sizes = [];
  total_bytes = 0;
}

abbrev pub count : RequestBudget → ℕ
count b = length b.sizes

abbrev pub is_full : RequestBudget → Bool
is_full b = elim b.max_requests [ none ↦ false | some m ↦ leb m (count b) ]

unfoldable pub reserve : ℕ → Exec Error RequestBudget (Unit {0})
reserve id b = elim (lookup id b.sizes) [
  | some _ ↦ err duplicate_request b
  | none ↦
      if is_full b
      then err too_many_requests b
      else ok tt (record b { sizes = insert id 0 b.sizes })
]

-- `previous` is part of the total, so the subtraction is exact.
unfoldable pub set_size : ℕ → ℕ → Exec Error RequestBudget (Unit {0})
set_size id size b = elim (lookup id b.sizes) [
  | none ↦ err missing_request b
  | some previous ↦
      let total = b.total_bytes - previous + size in
      if above total b.max_bytes
      then err too_many_bytes b
      else ok tt (record b { sizes = insert id size b.sizes; total_bytes = total })
]

abbrev pub headroom : Option ℕ → ℕ → Option ℕ
headroom none n = none
headroom (some m) n = some (m - n)

unfoldable pub remaining_bytes : ℕ → Exec Error RequestBudget (Option ℕ)
remaining_bytes id b = elim (lookup id b.sizes) [
  | none ↦ err missing_request b
  | some previous ↦ ok (headroom b.max_bytes (b.total_bytes - previous)) b
]

unfoldable pub release : ℕ → RequestBudget → Bool × RequestBudget
release id b = elim (lookup id b.sizes) [
  | none ↦ (false, b)
  | some size ↦ (true, record b { sizes = erase id b.sizes; total_bytes = b.total_bytes - size })
]

unfoldable pub clear : RequestBudget → RequestBudget
clear b = record b { sizes = []; total_bytes = 0 }
