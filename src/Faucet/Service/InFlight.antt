-- ===== src/Faucet/Service/InFlight.antt =====
-- `claim` of faucet/src/service.ts among other claims: the map `inFlight` of the claims that run.
use fibernuts.Common.{
  String, Bool, true, false, some, List, [], ◌∷◌, ◌≡◌, arith, str_eq, eq_iff, All,
}
use fibernuts.Js.Table.{Table, get, remove, get-set, get-remove}
use fibernuts.Faucet.Protocol.{identifier_hash}
use fibernuts.Faucet.Service.Claims.{
  ClaimStart, runs, ClaimCall, quote_hash_of, start_claim, finish_claim,
}

pub data FlightEvent : Type 0 where
  begins : ClaimCall → FlightEvent
  ends : (quote_hash : String) → FlightEvent

abbrev pub runs_claim : String → ClaimStart → Bool
runs_claim hash (runs quote_hash quote_id client network) = str_eq quote_hash hash
runs_claim hash _ = false

abbrev pub ends_claim : String → FlightEvent → Bool
ends_claim hash (begins call) = false
ends_claim hash (ends quote_hash) = str_eq quote_hash hash

module _ (hmac : String → String → String) (secret : String) where
  -- The starts of the claims among some events.
  unfoldable pub starts : List FlightEvent → Table String → List ClaimStart
  starts [] in_flight = []
  starts (begins call ∷ events) in_flight =
      let (start, in_flight') = start_claim hmac secret call in_flight in
      start ∷ starts events in_flight'
  starts (ends quote_hash ∷ events) in_flight = starts events (finish_claim quote_hash in_flight)

  start_flying :
      (hash owner : String) (call : ClaimCall) (in_flight : Table String)
      → get hash in_flight ≡ some owner
      → (runs_claim hash (start_claim hmac secret call in_flight).0 ≡ false)
        × (get hash (start_claim hmac secret call in_flight).1 ≡ some owner)
  unfolding start_claim
  start_flying hash owner call in_flight flying =
      let key = quote_hash_of hmac secret call in
      let client = identifier_hash hmac secret "client" call.client_id in
      ground (arith, eq_iff key hash, get-set key hash client in_flight)

  none_runs :
      (hash owner : String) (events : List FlightEvent) (in_flight : Table String)
      → get hash in_flight ≡ some owner
      → All (λ e. ends_claim hash e ≡ false) events
      → All (λ s. runs_claim hash s ≡ false) (starts events in_flight)
  unfolding starts finish_claim
  none_runs hash owner [] in_flight flying open_still = tt
  none_runs hash owner (begins call ∷ events) in_flight flying open_still =
      let (quiet, still) = start_flying hash owner call in_flight flying in
      (
        quiet,
        none_runs hash owner events (start_claim hmac secret call in_flight).1 still open_still.1,
      )
  none_runs hash owner (ends h ∷ events) in_flight flying open_still =
      none_runs hash owner events (remove h in_flight)
        (rw (get-remove h hash in_flight, open_still.0) flying) open_still.1

  -- Once a call runs the claim of a quote, no other call runs it before it ends, whichever calls begin
  -- and whichever other claims end in between.
  pub runs-exclusive :
      (call : ClaimCall) (in_flight : Table String) (events : List FlightEvent)
      → runs_claim (quote_hash_of hmac secret call) (start_claim hmac secret call in_flight).0
        ≡ true
      → All (λ e. ends_claim (quote_hash_of hmac secret call) e ≡ false) events
      → All
          (λ s. runs_claim (quote_hash_of hmac secret call) s ≡ false)
          (starts events (start_claim hmac secret call in_flight).1)
  unfolding start_claim
  runs-exclusive call in_flight events started open_still =
      none_runs (quote_hash_of hmac secret call)
        (identifier_hash hmac secret "client" call.client_id) events
        (start_claim hmac secret call in_flight).1
        (ground (
          arith,
          eq_iff (quote_hash_of hmac secret call) (quote_hash_of hmac secret call),
          get-set (quote_hash_of hmac secret call) (quote_hash_of hmac secret call)
              (identifier_hash hmac secret "client" call.client_id) in_flight,
        ))
        open_still
