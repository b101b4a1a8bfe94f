-- ===== src/HttpServer/Answers.antt =====
-- The statuses that the routes of api/internal/httpserver/router.go answer with.
pub mod Replies
pub mod Handlers
pub mod Routes
use fleetcontrol.Common.{ℕ, ◌≡◌, Bool, true, false, ◌||◌, List, [], ◌∷◌, eqb}
use fleetcontrol.Http.{Response, Outcome, responded, panicked}
use fleetcontrol.HttpServer.Router
use fleetcontrol.HttpServer.Router.{Endpoint}
use fleetcontrol.HttpServer.Access.{on_satellite_id}

-- The statuses of each route.
abbrev pub statuses : Endpoint → List ℕ
statuses Router.post_auth_login = 200 ∷ 400 ∷ 401 ∷ 500 ∷ []
statuses Router.get_health = 200 ∷ 503 ∷ []
statuses Router.get_version = 200 ∷ []
statuses Router.get_openapi = 200 ∷ []
statuses Router.get_docs = 200 ∷ []
statuses Router.post_satellites = 201 ∷ 400 ∷ 401 ∷ 500 ∷ []
statuses Router.get_satellites = 200 ∷ 401 ∷ 500 ∷ []
statuses Router.get_satellites_id = 200 ∷ 400 ∷ 401 ∷ 404 ∷ 500 ∷ []
statuses Router.patch_satellites_id = 200 ∷ 400 ∷ 401 ∷ 403 ∷ 404 ∷ 500 ∷ []
statuses Router.delete_satellites_id = 204 ∷ 400 ∷ 401 ∷ 403 ∷ 500 ∷ []
statuses Router.post_satellites_id_heartbeat = 200 ∷ 400 ∷ 401 ∷ 404 ∷ 500 ∷ []
statuses Router.post_users = 201 ∷ 400 ∷ 401 ∷ 403 ∷ 500 ∷ []
statuses Router.get_users = 200 ∷ 401 ∷ 403 ∷ 500 ∷ []
statuses Router.delete_users_id = 204 ∷ 400 ∷ 401 ∷ 403 ∷ 500 ∷ []

abbrev pub on_an_id : Endpoint → Bool
on_an_id Router.delete_users_id = true
on_an_id e = on_satellite_id e

abbrev pub is_among : ℕ → List ℕ → Bool
is_among n [] = false
is_among n (m ∷ ms) = eqb n m || is_among n ms

-- An answer with one of the statuses; a panic is none.
abbrev pub answers : List ℕ → Outcome → Bool
answers ss (responded resp) = is_among resp.status ss
answers ss (panicked text) = false

abbrev pub Answers : Endpoint → Outcome → Type 0
Answers e o = answers (statuses e) o ≡ true
