-- ===== src/Examples/Canonical.antt =====
-- Two records of one person, canonicalized with the resolver in memory.
use groundwork.Base.{◌≡◌, refl, List, [], ◌∷◌, none, some}
use groundwork.Runtime.Principal.{memory_resolver}
use groundwork.AclSync.MsGraph.Canonical.{ByUserKey, find_user_key, map_user_key}
use groundwork.AclSync.MsGraph.Kept.{Sighting, observe_all, map_user_key-observe_all}

abbrev sightings : List Sighting
sightings =
    record { now = 5; fresh = "x1"; mail = "bob@acme"; upn = "b"; id = "u1" }
    ∷ record { now = 6; fresh = "x2"; mail = "b2@acme"; upn = "b"; id = "u1" }
    ∷ []

abbrev known : ByUserKey
known = ("eve", "principal:e") ∷ []

eve_known : find_user_key known "eve" ≡ some "principal:e"
unfolding find_user_key
eve_known = refl

map_user_key-observe_all_example :
    map_user_key (observe_all memory_resolver "acme" sightings (λ key. none) known).0.1 "eve"
    ≡ "principal:e"
map_user_key-observe_all_example =
    map_user_key-observe_all memory_resolver "acme" sightings "eve" "principal:e" (λ key. none)
      known eve_known
