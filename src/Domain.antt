-- ===== src/Domain.antt =====
-- engine/internal/domain/domain.go: the ids and coordinates that every part shares.
pub mod Keys
use Prim.Native.String.{String}
use convergent_routing_analy.Prelude.{ℤ}
use convergent_routing_analy.Float.{Float64, Float}

-- int32 ids; a negative id is never a valid one.
abbrev pub NodeId : Type 0
NodeId = ℤ

abbrev pub EdgeId : Type 0
EdgeId = ℤ

abbrev pub SegmentId : Type 0
SegmentId = String

module _ ⦃f : Float64⦄ where
  -- WGS84 degrees.
  pub record LatLon : Type 0 where
    pub lat : Float
    pub lon : Float
