-- ===== src/Bestway/Datapoints/Release/Named.antt =====
-- What an adapter may write, by its configuration.
use homeflow.Base.{Bool, true, ◌≡◌, some, List, [], ◌∷◌, String, ◌⊎◌}
use homeflow.Bestway.Datapoints.{Datapoint, DatapointProfile}
use homeflow.Bestway.Datapoints.Release.{is_known, datapoint_of}

-- A name of the configuration stands for the datapoint.
abbrev pub IsNamed : Datapoint → List String → Type 0
IsNamed d [] = ⊥
IsNamed d (name ∷ names) = (datapoint_of name ≡ some d) ⊎ IsNamed d names

-- What holds of a layout with releases: a datapoint that may be written is named in the configuration, is
-- not the unit, and has a place in the layout and among the flags of a request.
abbrev pub Released : Bool → List String → DatapointProfile → Datapoint → Type 0
Released trusted names p d = (trusted ≡ true) × IsNamed d names × (is_known p d ≡ true)
