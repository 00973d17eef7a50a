-- ===== src/Flow/Buckets.antt =====
-- `flow_routing.py`: the partitions that name one of the 256 buckets themselves.
use ferricstore_python.Base.{
  ℕ, ◌≡◌, ◌↔◌, ◌≤◌, ◌<◌, refl, ap, ◌∙◌, Bool, true, false, Option, none, some, List, [], ◌∷◌, ◌++◌,
  length, ltb, ◌==◌, ==_iff, ==_refl, if◌then◌else◌, arith, length-append, le→ltb_false, lt→ltb,
  ltb→lt,
}
use ferricstore_python.Flow.Hashing.{
  auto_bucket, below_buckets, digits_behind, behind_prefix, auto_partition_prefix, bucket_digits,
  decimal, auto_partition_max_key_bytes, auto_partition_buckets,
}

bucket_digits-decimal : (b : ℕ) → b < 256 → bucket_digits (decimal b) ≡ some b
bucket_digits-decimal b h = ground arith

decimal-bucket_digits : (ds : List ℕ) (b : ℕ) → bucket_digits ds ≡ some b → ds ≡ decimal b
decimal-bucket_digits [] b h = absurd cc
decimal-bucket_digits (x ∷ []) b h = ground arith
decimal-bucket_digits (x ∷ y ∷ []) b h = ground arith
decimal-bucket_digits (x ∷ y ∷ z ∷ []) b h = ground arith
decimal-bucket_digits (x ∷ y ∷ z ∷ w ∷ ds) b h = absurd cc

behind_prefix-append : (ps ds : List ℕ) → behind_prefix ps (ps ++ ds) ≡ some ds
behind_prefix-append [] ds = refl
behind_prefix-append (p ∷ ps) ds = rw (==_refl) (behind_prefix-append ps ds)

behind_prefix-some : (ps bs ds : List ℕ) → behind_prefix ps bs ≡ some ds → bs ≡ ps ++ ds
behind_prefix-some [] bs ds h = cc
behind_prefix-some (p ∷ ps) [] ds h = absurd cc
behind_prefix-some (p ∷ ps) (b ∷ bs) ds h = go (p == b) refl h (behind_prefix-some ps bs ds)
  where
    go :
        (t : Bool)
        → (p == b) ≡ t
        → (if t then behind_prefix ps bs else none) ≡ some ds
        → (behind_prefix ps bs ≡ some ds → bs ≡ ps ++ ds)
        → (b ∷ bs) ≡ p ∷ (ps ++ ds)
    go true e k rest = let same = (==_iff p b).0 e in let more = rest k in cc
    go false e k rest = absurd cc

length-decimal : (b : ℕ) → length (decimal b) ≤ 3
length-decimal b = ground arith

auto_bucket-name : (b : ℕ) → b < 256 → auto_bucket (auto_partition_prefix ++ decimal b) ≡ some b
unfolding auto_bucket
auto_bucket-name b h =
    let short =
      le→ltb_false auto_partition_max_key_bytes (length (auto_partition_prefix ++ decimal b))
        (omega (arith, length-append auto_partition_prefix (decimal b), length-decimal b)) in
    rw short (
      ap (λ o. below_buckets (digits_behind o))
        (behind_prefix-append auto_partition_prefix (decimal b))
      ∙ ap below_buckets (bucket_digits-decimal b h)
      ∙ rw (lt→ltb b auto_partition_buckets h) refl)

below-some : (o : Option ℕ) (b : ℕ) → below_buckets o ≡ some b → (o ≡ some b) × (b < 256)
below-some none b h = absurd cc
below-some (some n) b h = go (ltb n auto_partition_buckets) refl h
  where
    go :
        (t : Bool)
        → ltb n auto_partition_buckets ≡ t
        → (if t then some n else none) ≡ some b
        → (some n ≡ some b) × (b < 256)
    go true e k = let m : n ≡ b = cc in (k, omega (arith, m, ltb→lt n auto_partition_buckets e))
    go false e k = absurd cc

digits_behind-some :
    (o : Option (List ℕ)) (b : ℕ)
    → digits_behind o ≡ some b
    → (ds : List ℕ) × (o ≡ some ds) × (ds ≡ decimal b)
digits_behind-some none b h = absurd cc
digits_behind-some (some ds) b h = (ds, refl, decimal-bucket_digits ds b h)

auto_bucket-some :
    (bs : List ℕ) (b : ℕ)
    → auto_bucket bs ≡ some b
    → (b < 256) × (bs ≡ auto_partition_prefix ++ decimal b)
unfolding auto_bucket
auto_bucket-some bs b h = go (ltb auto_partition_max_key_bytes (length bs)) h
  where
    go :
        (t : Bool)
        → (if t
            then none
            else below_buckets (digits_behind (behind_prefix auto_partition_prefix bs)))
          ≡ some b
        → (b < 256) × (bs ≡ auto_partition_prefix ++ decimal b)
    go true k = absurd cc
    go false k =
        let (e, bound) = below-some (digits_behind (behind_prefix auto_partition_prefix bs)) b k in
        let (ds, e', d) = digits_behind-some (behind_prefix auto_partition_prefix bs) b e in
        (
          bound,
          behind_prefix-some auto_partition_prefix bs ds e'
              ∙ ap (λ l. auto_partition_prefix ++ l) d,
        )

-- An encoded partition names a bucket exactly where it is the prefix before the decimal form of a number
-- below 256, and then it names that bucket.
pub auto_bucket_iff :
    (bs : List ℕ) (b : ℕ)
    → (auto_bucket bs ≡ some b) ↔ ((b < 256) × (bs ≡ auto_partition_prefix ++ decimal b))
auto_bucket_iff bs b =
    (auto_bucket-some bs b, λ (bound, e). ap auto_bucket e ∙ auto_bucket-name b bound)
