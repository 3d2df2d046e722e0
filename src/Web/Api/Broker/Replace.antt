-- ===== src/Web/Api/Broker/Replace.antt =====
-- Finding a request after the row of one key was replaced.
use iib.Common.{ℕ, ◌≡◌, refl, false, some, List, [], ◌∷◌, arith, nat_eq}
use iib.Web.Tables.{Request}
use iib.Web.Messaging.{find_request}
use iib.Web.Api.Broker.{replace_request}

pub find_request-replace_request :
    (id : ℕ) (r r' : Request) (requests : List Request)
    → r'.id ≡ id
    → find_request id requests ≡ some r
    → find_request id (replace_request r' requests) ≡ some r'
unfolding find_request replace_request
find_request-replace_request id r r' [] e h = cc
find_request-replace_request id r r' (x ∷ requests) e h =
    ground (arith, find_request-replace_request id r r' requests e)

-- Another key finds what it found.
pub find_request-replace_request_other :
    (id : ℕ) (r' : Request) (requests : List Request)
    → nat_eq r'.id id ≡ false
    → find_request id (replace_request r' requests) ≡ find_request id requests
unfolding find_request replace_request
find_request-replace_request_other id r' [] e = refl
find_request-replace_request_other id r' (x ∷ requests) e =
    ground (arith, find_request-replace_request_other id r' requests e)
