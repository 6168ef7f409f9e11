-- ===== src/Bgp/Paths.antt =====
-- The lengths of the paths that the BGP daemon holds.
use text.Mathlib.TextEquality.{eq_iff}
use netforge.Prelude.{
  ℕ, Bool, ◌≡◌, refl, ap, ◌∙◌, String, ◌&&◌, false, any, nat_eq, not, Option, none, some, arith,
  List, [], ◌∷◌, ◌==◌, string_eq, length, ltb, if◌then◌else◌,
}
use netforge.Prelude.Int64.{Int64}
use netforge.Prelude.GoMap.{GoMap, get, get-put}
use netforge.Bgp.{
  BgpPeer, BgpRoute, BgpDaemon, Learned, learned_route, is_last, has_loop, process_route,
  process_routes, process_update,
}

abbrev pub path_length : Option BgpRoute → Option ℕ
path_length none = none
path_length (some route) = some (length route.as_path)

abbrev pub length_at : GoMap String BgpRoute → String → Option ℕ
length_at routes prefix = path_length (get routes prefix)

abbrev pub shorter : Option ℕ → ℕ → Option ℕ
shorter none n = some n
shorter (some held) n = if ltb n held then some n else some held

-- The path ends in the AS.
abbrev pub ends_in : Int64 → List Int64 → Bool
ends_in remote_as [] = false
ends_in remote_as (a ∷ []) = a == remote_as
ends_in remote_as (_ ∷ b ∷ path) = ends_in remote_as (b ∷ path)

ends_in-is_last :
    (remote_as : Int64) (path : List Int64) → is_last path remote_as ≡ ends_in remote_as path
ends_in-is_last remote_as [] = refl
ends_in-is_last remote_as (a ∷ []) = refl
ends_in-is_last remote_as (_ ∷ b ∷ path) = ends_in-is_last remote_as (b ∷ path)

-- The daemon's own AS is not on the path, and the peer's is not its end.
abbrev pub is_accepted : Int64 → Int64 → List Int64 → Bool
is_accepted local_as remote_as path =
    not (any (λ a. a == local_as) path) && not (ends_in remote_as path)

has_loop-is_accepted :
    (local_as remote_as : Int64) (path : List Int64)
    → has_loop local_as remote_as path ≡ not (is_accepted local_as remote_as path)
unfolding has_loop
has_loop-is_accepted local_as remote_as path = rw (ends_in-is_last remote_as path) ground arith

abbrev pub offer : Int64 → Int64 → String → Option ℕ → BgpRoute → Option ℕ
offer local_as remote_as prefix held route =
    if route.prefix == prefix && is_accepted local_as remote_as route.as_path
    then shorter held (length route.as_path)
    else held

-- The shortest of the length held and of those of the accepted paths for one prefix.
unfoldable pub best_offer : Int64 → Int64 → String → Option ℕ → List BgpRoute → Option ℕ
best_offer local_as remote_as prefix held [] = held
best_offer local_as remote_as prefix held (route ∷ rest) =
    best_offer local_as remote_as prefix (offer local_as remote_as prefix held route) rest

module _ (local_as remote_as : Int64) (peer : String) where
  length_at-process_route :
      (l : Learned) (route : BgpRoute) (prefix : String)
      → length_at (process_route local_as remote_as peer l route).0 prefix
        ≡ offer local_as remote_as prefix (length_at l.0 prefix) route
  unfolding process_route
  length_at-process_route l route prefix = ground (
    arith,
    has_loop-is_accepted local_as remote_as route.as_path,
    get-put l.0 route.prefix prefix (learned_route peer route),
    eq_iff route.prefix prefix,
  )

  length_at-process_routes :
      (l : Learned) (routes : List BgpRoute) (prefix : String)
      → length_at (process_routes local_as remote_as peer l routes).0 prefix
        ≡ best_offer local_as remote_as prefix (length_at l.0 prefix) routes
  unfolding process_routes best_offer
  length_at-process_routes l [] prefix = refl
  length_at-process_routes l (route ∷ rest) prefix =
      length_at-process_routes (process_route local_as remote_as peer l route) rest prefix
      ∙ ap (λ held. best_offer local_as remote_as prefix held rest)
          (length_at-process_route l route prefix)

-- After an update of a known peer the length of the path held for a prefix is the least of the
-- old one and of those of the peer's paths for it that neither contain the daemon's own AS nor end
-- in the peer's AS.
pub process_update-shortest :
    (b : BgpDaemon) (routes : List BgpRoute) (peer : String) (cfg : BgpPeer) (prefix : String)
    → get b.peers peer ≡ some cfg
    → length_at (process_update b routes peer).0.routes prefix
      ≡ best_offer b.local_as cfg.remote_as prefix (length_at b.routes prefix) routes
unfolding process_update
process_update-shortest b routes peer cfg prefix known =
    rw (known, process_update)
      (length_at-process_routes b.local_as cfg.remote_as peer (b.routes, []) routes prefix)
