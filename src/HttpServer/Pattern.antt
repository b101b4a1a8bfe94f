-- ===== src/HttpServer/Pattern.antt =====
-- The patterns that api/internal/httpserver/router.go registers, with a parameter filled in.
use Prim.Native.Char.{code}
use Prim.Native.String
use fleetcontrol.Common.{String, Bool, false, ◌||◌, eqb, if◌then◌else◌}

abbrev pub has_parameter : String → Bool
has_parameter String.[] = false
has_parameter (String.◌∷◌ c s) = eqb (code c) 123 || has_parameter s

abbrev pub before_parameter : String → String
before_parameter String.[] = String.[]
before_parameter (String.◌∷◌ c s) =
    let rest = before_parameter s in if eqb (code c) 123 then "" else String.◌∷◌ c rest

abbrev pub after_parameter : String → String
after_parameter String.[] = String.[]
after_parameter (String.◌∷◌ c s) =
    let rest = after_parameter s in if eqb (code c) 125 then s else rest

abbrev pub fill : String → String → String
fill param pattern =
    if has_parameter pattern
    then String.◌++◌ (before_parameter pattern) (String.◌++◌ param (after_parameter pattern))
    else pattern
