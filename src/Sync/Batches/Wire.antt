-- ===== src/Sync/Batches/Wire.antt =====
-- The cached wire bytes of a batch are what the serializer would write.
use hermes_flight_recorder.Base.{
  sym, ◌∙◌, length, length-append, ℕ, ◌+◌, ◌≡◌, refl, ap, List, [], ◌∷◌, ◌++◌, map, append_assoc,
  arith,
}
use hermes_flight_recorder.Value.{object, Fields}
use hermes_flight_recorder.Value.Json.{Bytes, dumps, dumps_items}
use hermes_flight_recorder.Sync.Batches.{
  to_items, batch_value, empty_batch_wire, wire_prefix, wire_suffix, record_json, join_parts,
  preserialized,
}

dumps_items-to_items :
    (rs : List Fields) → dumps_items (to_items rs) ≡ join_parts (map record_json rs)
unfolding dumps_items to_items join_parts record_json
dumps_items-to_items [] = refl
dumps_items-to_items (r ∷ []) = refl
dumps_items-to_items (r ∷ q ∷ rs) =
    ap (λ s. dumps (object r) ++ 44 ∷ s) (dumps_items-to_items (q ∷ rs))

-- Parts that come from their records give the bytes of the whole batch.
pub wire_bytes-preserialized :
    (rs : List Fields) → (preserialized rs (map record_json rs)).wire_bytes ≡ dumps (batch_value rs)
unfolding preserialized batch_value dumps dumps_items to_items wire_suffix
wire_bytes-preserialized rs =
    ap (λ s. wire_prefix ++ (s ++ wire_suffix)) (sym (dumps_items-to_items rs))
    ∙ ap (λ s. wire_prefix ++ s)
        (sym (append_assoc (dumps_items (to_items rs)) (93 ∷ []) (125 ∷ [])))

abbrev pub total : List Bytes → ℕ
total parts = length empty_batch_wire + length (join_parts parts)

pub length-preserialized :
    (rs : List Fields) (parts : List Bytes)
    → length (preserialized rs parts).wire_bytes ≡ total parts
unfolding preserialized empty_batch_wire
length-preserialized rs parts = omega (
  arith,
  length-append {0} wire_prefix (join_parts parts ++ wire_suffix),
  length-append {0} (join_parts parts) wire_suffix,
)

pub length-join_parts :
    (ps : List Bytes) (p q : Bytes)
    → length (join_parts ((p ∷ ps) ++ q ∷ [])) ≡ length (join_parts (p ∷ ps)) + length q + 1
unfolding join_parts
length-join_parts [] p q = omega (arith, length-append {0} p (44 ∷ q))
length-join_parts (p' ∷ ps) p q = omega (
  arith,
  length-join_parts ps p' q,
  length-append {0} p (44 ∷ join_parts (p' ∷ ps)),
  length-append {0} p (44 ∷ join_parts ((p' ∷ ps) ++ q ∷ [])),
)
