-- ===== src/Reads.antt =====
-- What reading a stream in chunks gives, for the readers in http_network_relay/edge_agent.py and
-- http_network_relay/access_client.py.
use http_network_relay.Prelude.{ℕ, ◌≡◌, ap, sym, ◌∙◌, List, [], ◌∷◌, ◌++◌, append-nil, append_assoc}
use http_network_relay.Exception.{Result, ok}
use http_network_relay.Frame.Hex.{Bytes}

-- What `reader.read` gives before the end of stdin.
pub data Chunks : List Bytes → Type 0 where
  nothing : Chunks []
  one_more : {b : ℕ} {bs : Bytes} {rest : List Bytes} → Chunks rest → Chunks ((b ∷ bs) ∷ rest)

unfoldable pub until_end : List Bytes → List (Result Bytes)
until_end [] = ok [] ∷ []
until_end (content ∷ rest) = ok content ∷ until_end rest

unfoldable pub joined : List Bytes → Bytes
joined [] = []
joined (content ∷ rest) = content ++ joined rest

pub joined-append :
    (contents : List Bytes) (content : Bytes)
    → joined (contents ++ content ∷ []) ≡ joined contents ++ content
unfolding joined
joined-append [] content = append-nil content
joined-append (first ∷ rest) content =
    ap (λ r. first ++ r) (joined-append rest content)
    ∙ sym (append_assoc first (joined rest) content)
