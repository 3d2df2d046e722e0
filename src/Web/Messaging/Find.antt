-- ===== src/Web/Messaging/Find.antt =====
-- Finding a request by its key, before and after a change of its row.
use iib.Common.{ℕ, ◌≡◌, some, List, [], ◌∷◌, ◌++◌, map, arith}
use iib.Web.Tables.{Request}
use iib.Web.Request.{refresh}
use iib.Web.Messaging.{find_request}

pub find_request-id :
    (id : ℕ) (requests : List Request) (r : Request) → find_request id requests ≡ some r → r.id ≡ id
unfolding find_request
find_request-id id [] r h = cc
find_request-id id (x ∷ requests) r h = ground (arith, find_request-id id requests r)

pub find_request-concat :
    (id : ℕ) (r new : Request) (requests : List Request)
    → find_request id requests ≡ some r
    → find_request id (requests ++ new ∷ []) ≡ some r
unfolding find_request
find_request-concat id r new [] h = cc
find_request-concat id r new (x ∷ requests) h =
    ground (arith, find_request-concat id r new requests)

-- A commit reads every row again.
pub find_request-map-refresh :
    (id : ℕ) (requests : List Request) (r : Request)
    → find_request id requests ≡ some r
    → find_request id (map refresh requests) ≡ some (refresh r)
unfolding find_request refresh
find_request-map-refresh id [] r h = cc
find_request-map-refresh id (x ∷ requests) r h =
    ground (arith, find_request-map-refresh id requests r)
