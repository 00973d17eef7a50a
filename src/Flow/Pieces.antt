-- ===== src/Flow/Pieces.antt =====
-- `flow_routing.py`: a routing key that is hashed piece by piece, against one that is hashed at once.
use ferricstore_python.Base.{
  ℕ, zero, suc, ◌%◌, ◌≡◌, ◌≤◌, ◌<◌, refl, sym, ap, ◌∙◌, Bool, true, false, ◌&&◌, not, Option, none,
  some, List, [], ◌∷◌, ◌++◌, length, take, drop, ltb, if◌then◌else◌, arith, take-drop, length-drop,
  ltb→lt, lt→ltb, length-append, append_assoc,
}
use ferricstore_python.Codec.Value.{
  text, binary, utf8, is_encodable, is_surrogate, str_encode, utf8_point,
}
use ferricstore_python.Flow.Hashing.{
  add_encoded, add_pieces, routing_text_chunk_chars, auto_bucket, bucket_or_digest,
  logical_partition_routing_key, logical_partition_text_routing_key,
  flow_logical_partition_routing_key, routing_crc32, flow_auto_id_routing_key, key_of_encoded,
  keyed, auto_partition_max_key_bytes, partition_route_cache_max_key_bytes, auto_id_key, auto_key,
}

utf8-append : (as' bs : List ℕ) → utf8 (as' ++ bs) ≡ utf8 as' ++ utf8 bs
utf8-append [] bs = refl
utf8-append (a ∷ as') bs =
    ap (λ (l : List ℕ). utf8_point a ++ l) (utf8-append as' bs)
    ∙ sym (append_assoc (utf8_point a) (utf8 as') (utf8 bs))

is_encodable-append :
    (as' bs : List ℕ) → is_encodable (as' ++ bs) ≡ (is_encodable as' && is_encodable bs)
is_encodable-append [] bs = refl
is_encodable-append (a ∷ as') bs = go (is_surrogate a) _ _ _ (is_encodable-append as' bs)
  where
    go : (s x y z : Bool) → x ≡ (y && z) → (not s && x) ≡ ((not s && y) && z)
    go true x y z h = refl
    go false x y z h = h

module _ {S : Type 0} (add : S → List ℕ → S) where
  -- Reading one piece after another is reading them together.
  abbrev pub AddsUp : Type 0
  AddsUp =
      ((state : S) (xs ys : List ℕ) → add (add state xs) ys ≡ add state (xs ++ ys))
      × ((state : S) → add state [] ≡ state)

  -- A piece, and the rest behind it, where each has a UTF-8 form or has none.
  two_parts :
      AddsUp
      → (p r : Bool) (u v : List ℕ) (state : S) (next : S → Option S)
      → ((s : S) → next s ≡ add_encoded add (if r then some v else none) s)
      → (elim (add_encoded add (if p then some u else none) state) [
        | none ↦ none
        | some s ↦ next s
      ])
        ≡ add_encoded add (if p && r then some (u ++ v) else none) state
  two_parts (adds, nothing) false r u v state next h = refl
  two_parts (adds, nothing) true false u v state next h = h (add state u)
  two_parts (adds, nothing) true true u v state next h = h (add state u) ∙ ap some (adds state u v)

  add_pieces-append :
      AddsUp
      → (piece rest : List ℕ) (state : S) (next : S → Option S)
      → ((s : S) → next s ≡ add_encoded add (str_encode rest) s)
      → (elim (add_encoded add (str_encode piece) state) [ none ↦ none | some s ↦ next s ])
        ≡ add_encoded add (str_encode (piece ++ rest)) state
  unfolding str_encode
  add_pieces-append sums piece rest state next h =
      rw (is_encodable-append, utf8-append)
        (two_parts sums (is_encodable piece) (is_encodable rest) (utf8 piece) (utf8 rest) state next
          h)

  at_end : AddsUp → (state : S) → some state ≡ add_encoded add (str_encode []) state
  unfolding str_encode
  at_end (adds, nothing) state = ap some (sym (nothing state))

  add_pieces-encoded :
      AddsUp
      → (fuel : ℕ) (cs : List ℕ) (state : S) → length cs ≤ fuel
      → add_pieces add fuel cs state ≡ add_encoded add (str_encode cs) state
  unfolding add_pieces
  add_pieces-encoded sums zero [] state h = at_end sums state
  add_pieces-encoded sums zero (c ∷ cs) state h = absurd (omega (arith, h))
  add_pieces-encoded sums (suc fuel) [] state h = at_end sums state
  add_pieces-encoded sums (suc fuel) (c ∷ cs) state h =
      add_pieces-append sums (take routing_text_chunk_chars (c ∷ cs))
        (drop routing_text_chunk_chars (c ∷ cs)) state
        (add_pieces add fuel (drop routing_text_chunk_chars (c ∷ cs)))
        (λ s.
          add_pieces-encoded sums fuel (drop routing_text_chunk_chars (c ∷ cs)) s
            (omega (arith, h, length-drop routing_text_chunk_chars (c ∷ cs))))
      ∙ ap (λ l. add_encoded add (str_encode l) state) (take-drop routing_text_chunk_chars (c ∷ cs))

utf8_point-length : (c : ℕ) → 1 ≤ length (utf8_point c)
unfolding utf8_point
utf8_point-length c = ground arith

length-utf8 : (cs : List ℕ) → length cs ≤ length (utf8 cs)
length-utf8 [] = omega arith
length-utf8 (c ∷ cs) =
    omega (arith, utf8_point-length c, length-utf8 cs, length-append (utf8_point c) (utf8 cs))

-- A name of more bytes than `__flow_auto__:255` has is no bucket's.
auto_bucket-long : (bs : List ℕ) → auto_partition_max_key_bytes < length bs → auto_bucket bs ≡ none
unfolding auto_bucket
auto_bucket-long bs h = rw (lt→ltb _ _ h) refl

str_encode-some : (cs bs : List ℕ) → str_encode cs ≡ some bs → bs ≡ utf8 cs
unfolding str_encode
str_encode-some cs bs h = go (is_encodable cs) h
  where
    go : (b : Bool) → (if b then some (utf8 cs) else none) ≡ some bs → bs ≡ utf8 cs
    go true k = cc
    go false k = absurd cc

module _ {H : Type 0} (crc32 : List ℕ → ℕ → ℕ) (fresh : H) (update : H → List ℕ → H)
    (digest : H → List ℕ) where
  long_text :
      AddsUp update
      → (cs bs : List ℕ) → str_encode cs ≡ some bs
      → partition_route_cache_max_key_bytes < length cs
      → logical_partition_text_routing_key crc32 fresh update digest cs
        ≡ some (logical_partition_routing_key crc32 fresh update digest bs)
  unfolding logical_partition_text_routing_key logical_partition_routing_key
  long_text sums cs bs e h =
      ap (keyed crc32 fresh update digest) (
        add_pieces-encoded update sums (length cs) cs fresh (omega arith)
        ∙ ap (λ o. add_encoded update o fresh) e)
      ∙ ap (λ o. some (bucket_or_digest crc32 fresh update digest o bs))
          (sym (
            auto_bucket-long bs
              (let eq = str_encode-some cs bs e in omega (arith, h, length-utf8 cs, ap length eq))))

  flow_logical_partition_routing_key-text :
      AddsUp update
      → (cs bs : List ℕ) → str_encode cs ≡ some bs
      → flow_logical_partition_routing_key crc32 fresh update digest (text cs)
        ≡ flow_logical_partition_routing_key crc32 fresh update digest (binary bs)
  unfolding flow_logical_partition_routing_key
  flow_logical_partition_routing_key-text sums cs bs e =
      go (ltb partition_route_cache_max_key_bytes (length cs)) refl
    where
      go :
          (b : Bool)
          → ltb partition_route_cache_max_key_bytes (length cs) ≡ b
          → (elim (if b
              then logical_partition_text_routing_key crc32 fresh update digest cs
              else key_of_encoded crc32 fresh update digest (str_encode cs)) [
                | none ↦ none
                | some key ↦ some (some key)
              ])
            ≡ some (some (logical_partition_routing_key crc32 fresh update digest bs))
      go true h = rw (long_text sums cs bs e (ltb→lt _ _ h)) refl
      go false h = rw e refl

  flow_auto_id_routing_key-text :
      AddsUp (λ checksum piece. crc32 piece checksum)
      → (cs bs : List ℕ) → str_encode cs ≡ some bs
      → flow_auto_id_routing_key crc32 fresh update digest (text cs)
        ≡ flow_auto_id_routing_key crc32 fresh update digest (binary bs)
  unfolding flow_auto_id_routing_key routing_crc32
  flow_auto_id_routing_key-text sums cs bs e =
      go (add_pieces (λ checksum piece. crc32 piece checksum) (length cs) cs 0) (
        add_pieces-encoded (λ checksum piece. crc32 piece checksum) sums (length cs) cs 0
          (omega arith)
        ∙ ap (λ o. add_encoded (λ checksum piece. crc32 piece checksum) o 0) e)
    where
      go :
          (o : Option ℕ)
          → o ≡ some (crc32 bs 0)
          → auto_id_key crc32 fresh update digest
              (elim o [ none ↦ none | some checksum ↦ some (some checksum) ])
            ≡ some (some (auto_key (crc32 bs 0 % 256)))
      go o h = rw h refl

  -- Where a CRC and a hash of one piece after another are those of the pieces together, a text that has a
  -- UTF-8 form gets the routing keys of its bytes, as a partition and as a Flow id, however long it is.
  pub routing_keys-text :
      AddsUp update
      → AddsUp (λ checksum piece. crc32 piece checksum)
      → (cs bs : List ℕ) → str_encode cs ≡ some bs
      → (flow_logical_partition_routing_key crc32 fresh update digest (text cs)
          ≡ flow_logical_partition_routing_key crc32 fresh update digest (binary bs))
        × (flow_auto_id_routing_key crc32 fresh update digest (text cs)
            ≡ flow_auto_id_routing_key crc32 fresh update digest (binary bs))
  routing_keys-text hash crc cs bs e = (
    flow_logical_partition_routing_key-text hash cs bs e,
    flow_auto_id_routing_key-text crc cs bs e,
  )
