-- ===== src/Geometry/Wkb/Envelopes.antt =====
-- What `ST_MinX`, `ST_MaxX`, `ST_MinY` and `ST_MaxY` answer.
use go_geodiff.Common.{ℕ, ◌≡◌, ◌⊎◌, true, [], if◌then◌else◌, Bytes, Option, none, some}
use go_geodiff.Result.{Result, ok, err}
use go_geodiff.Geometry.{GpkgEnvelope, GpkgHeader, read_gpkg_header, create_wkb_from_gpkg_header}
use go_geodiff.Geometry.Floats.{Floats}
use go_geodiff.Geometry.Arcs.{Bounds}
use go_geodiff.Geometry.Wkb.{body_bounds}
use go_geodiff.Geometry.Wkb.Steps.{IsAnswered}

module _ (f : Floats) where
  -- The envelope that the header carries, or else that of the body that the other reader leaves.
  abbrev pub IsEnvelopeOf : Bytes → GpkgHeader → Bounds → Type 0
  IsEnvelopeOf blob h b =
      ((env : GpkgEnvelope) × (h.env ≡ some env) × (b ≡ record { added = true; env = env }))
      ⊎ ((h.env ≡ none)
          × ((body : Bytes) × (create_wkb_from_gpkg_header blob ≡ ok body)
              × (body_bounds f body ≡ ok b)))

  abbrev pub IsBounds : Bytes → Result Bounds → Type 0
  IsBounds blob (err e) = IsAnswered e
  IsBounds blob (ok b) = (h : GpkgHeader) × (read_gpkg_header blob ≡ ok h) × IsEnvelopeOf blob h b

  -- NULL for an empty argument and for a geometry without a point; what is picked of the envelope
  -- otherwise; or an error of the code.
  abbrev pub IsPicked : (GpkgEnvelope → ℕ) → Bytes → Result (Option ℕ) → Type 0
  IsPicked pick blob (err e) = IsAnswered e
  IsPicked pick blob (ok v) =
      ((blob ≡ []) × (v ≡ none))
      ⊎ ((b : Bounds) × IsBounds blob (ok b) × (v ≡ (if b.added then some (pick b.env) else none)))
