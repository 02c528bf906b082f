-- ===== src/Tests/Http.antt =====
-- A request with a key whose address tries to add a line.
use whirl.Prelude.{◌+◌, ◌≡◌, refl, [], ◌∷◌, ◌++◌, codes, some, none}
use whirl.Http.{HttpRequest, options, configuration, body_configuration, user_agent}
use whirl.Http.Quoted.{newlines, keys, newlines-configuration}

abbrev plain : HttpRequest
plain = record { url = codes "u"; key = none }

abbrev hostile : HttpRequest
hostile = record { url = b'"' ∷ 10 ∷ codes "output = x"; key = some (codes "k") }

written_out :
    options plain
    ≡ codes "silent"
      ++ (10 ∷ codes "show-error")
      ++ (10 ∷ codes "max-time = 120")
      ++ (10 ∷ codes "url = ")
      ++ (b'"' ∷ codes "u")
      ++ (b'"' ∷ 10 ∷ codes "user-agent = ")
      ++ (b'"' ∷ user_agent)
      ++ (b'"' ∷ 10 ∷ [])
unfolding options
written_out = refl

newlines-configuration_example :
    (newlines (configuration hostile) ≡ 6 + keys hostile.key)
    × (newlines (body_configuration hostile) ≡ 5 + keys hostile.key)
newlines-configuration_example = newlines-configuration hostile
