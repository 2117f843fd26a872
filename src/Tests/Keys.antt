-- ===== src/Tests/Keys.antt =====
-- The key of a segment on the wire.
use convergent_routing_analy.Prelude.{◌≡◌, ◌↔◌, refl, pos, [], ◌∷◌}
use convergent_routing_analy.Domain.Keys.{
  Bytes, reversed, parse_segment_id, format_segment_id, key, refused, way_field, not_canonical,
}
use convergent_routing_analy.Domain.Keys.RoundTrip.{Wire, parse_segment_id_iff}

abbrev key_text : Bytes
key_text = b'1' ∷ b'2' ∷ b':' ∷ b'0' ∷ b':' ∷ b'R' ∷ []

key_printed : format_segment_id (pos 12) (pos 0) reversed ≡ key_text
unfolding format_segment_id
key_printed = refl

-- A leading zero is refused.
key_padded :
    parse_segment_id (b'0' ∷ b'7' ∷ b':' ∷ b'0' ∷ b':' ∷ b'F' ∷ [])
    ≡ refused (way_field not_canonical)
unfolding parse_segment_id
key_padded = refl

parse_segment_id_iff_example :
    (parse_segment_id key_text ≡ key (pos 12) (pos 0) reversed)
    ↔ (Wire (pos 12) (pos 0) reversed × (key_text ≡ format_segment_id (pos 12) (pos 0) reversed))
parse_segment_id_iff_example = parse_segment_id_iff key_text (pos 12) (pos 0) reversed
