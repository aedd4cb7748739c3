-- ===== src/Dispatcher/Post.antt =====
-- server/internal/dispatcher/dispatcher.go, post: the request that carries an entry to the webhook. Names
-- of headers are as the calls of Set write them, each once.
use Prim.Native.String.{◌++◌}
use distribuid_system_simula.Prelude.{
  ℕ, ◌+◌, String, true, Option, none, some, List, [], ◌∷◌, ◌≡◌, ◌↔◌, ◌==◌, refl, ap, if◌then◌else◌,
}
use distribuid_system_simula.Prelude.Int.{ℤ, pos, leb_ℤ, ltb_ℤ, twice}
use distribuid_system_simula.Db.Platform.{Platform}
use distribuid_system_simula.Db.Tables.{OutboxRow}
use distribuid_system_simula.Db.Outbox.{OutboxEntry, entry_of}
use distribuid_system_simula.Dispatcher.{Response, unreachable}
use distribuid_system_simula.Dispatcher.Decimal.{decimal}
use distribuid_system_simula.Dispatcher.Defaults.{Config, post_timeout, post_timeout-le}

-- A POST request with a deadline.
pub record Request (P : Type 0) : Type 0 where
  pub url : String
  pub body : P
  pub timeout : ℤ
  pub headers : List (String × String)

-- net/http: why `NewRequestWithContext` refuses a URL, if it does, and what `Do` returns for a request.
pub record HttpClient (P : Type 0) : Type 0 where
  pub refusal : String → Option String
  pub send : Request P → Response

unfoldable pub header : String → List (String × String) → Option String
header name [] = none
header name ((other, value) ∷ rest) = if other == name then some value else header name rest

module _ {P : Type 0} where
  unfoldable pub request_of : Config → OutboxEntry P → Request P
  request_of c entry = record {
    url = c.webhook_url;
    body = entry.payload;
    timeout = post_timeout c;
    headers =
        ("Content-Type", "application/json")
        ∷ ("Idempotency-Key", entry.id)
        ∷ ("X-Event-Type", entry.event_type)
        ∷ ("X-Aggregate-ID", entry.aggregate_id)
        ∷ ("X-Outbox-Position", decimal entry.position)
        ∷ ("X-Delivery-Attempt", decimal (entry.attempts + 1))
        ∷ [];
  }

  unfoldable pub post_created : HttpClient P → Config → OutboxEntry P → Option String → Response
  post_created client c entry (some e) = unreachable ("creating request: " ++ e)
  post_created client c entry none = client.send (request_of c entry)

  -- `post`
  unfoldable pub post : HttpClient P → Config → OutboxEntry P → Response
  post client c entry = post_created client c entry (client.refusal c.webhook_url)

  abbrev pub key_of : Request P → Option String
  key_of q = header "Idempotency-Key" q.headers

  key_of-request_of :
      (c : Config) (entry : OutboxEntry P) → key_of (request_of c entry) ≡ some entry.id
  unfolding request_of header
  key_of-request_of c entry = refl

-- The text of a header that is there.
text_of : Option String → String
text_of none = ""
text_of (some x) = x

-- If the URL is not refused and the lease is positive, `post` answers what the client answers to one
-- request, whose timeout is at most the configured one and at most half of the lease, and whose
-- idempotency key is that of the request for another row of the outbox only if the rows have the same
-- id, where the ids of different rows have different texts.
pub post_lem :
    {P : Type 0} (env : Platform P) (client : HttpClient P) (c : Config) (a b : OutboxRow P)
    → ((m n : ℕ) → env.uuid_text m ≡ env.uuid_text n → m ≡ n)
    → client.refusal c.webhook_url ≡ none
    → ltb_ℤ (pos 0) c.lease ≡ true
    → (q : Request P) × (post client c (entry_of env a) ≡ client.send q)
      × (leb_ℤ q.timeout c.breaker.request_timeout ≡ true)
      × (leb_ℤ (twice q.timeout) c.lease ≡ true)
      × ((key_of q ≡ key_of (request_of c (entry_of env b))) ↔ (a.id ≡ b.id))
unfolding post post_created request_of header entry_of text_of
post_lem env client c a b injective accepted leased =
    let (within, covered) = post_timeout-le c leased in
    (
      request_of c (entry_of env a),
      rw accepted refl,
      within,
      covered,
      ((λ same. injective _ _ (ap text_of same)), λ same. ap (λ n. some (env.uuid_text n)) same),
    )
