-- ===== src/Edge/Accept.antt =====
-- pkg/edge/edge.go: the loops that accept connections and streams, and the copies of the lists that the server
-- hands out. What `Accept` gives is an argument.
use outrelay_relay.Common.{List, [], ◌∷◌, Bool, if◌then◌else◌, ◌≡◌, map, ◌++◌, ap, refl}

-- `ln.Accept`: a connection, the end of the context, or another error.
pub data Acceptance (C : Type 0) : Type 0 where
  accepted : C → Acceptance C
  context_ended : Acceptance C
  accept_error : Acceptance C

-- How `Run` ends: without an error, with one, or not yet.
pub data RunEnd : Type 0 where
  stopped failed serving : RunEnd

module _ {C : Type 0} where
  -- The loop of `RunListener`: the connections that are served, and its end.
  unfoldable pub run_listener : List (Acceptance C) → List C × RunEnd
  run_listener [] = ([], serving)
  run_listener (accepted c ∷ more) = let (served, end) = run_listener more in (c ∷ served, end)
  run_listener (context_ended ∷ more) = ([], stopped)
  run_listener (accept_error ∷ more) = ([], failed)

  -- `Run`: `bound` says whether the listener could be opened.
  unfoldable pub run_server : Bool → List (Acceptance C) → List C × RunEnd
  unfolding run_listener
  run_server bound answers = if bound then run_listener answers else ([], failed)

  -- The loop over the streams of a connection, of an agent or of a peer relay, which any error ends.
  unfoldable pub serve_streams : List (Acceptance C) → List C
  serve_streams [] = []
  serve_streams (accepted c ∷ more) = c ∷ serve_streams more
  serve_streams (context_ended ∷ more) = []
  serve_streams (accept_error ∷ more) = []

  -- `run_listener` serves the connections that are accepted before the first error: it stops without an
  -- error when this is the end of the context, fails on any other, and goes on when there is none.
  pub run_listener_lem :
      (served : List C) (more : List (Acceptance C))
      → (run_listener (map accepted served ++ context_ended ∷ more) ≡ (served, stopped))
        × (run_listener (map accepted served ++ accept_error ∷ more) ≡ (served, failed))
        × (run_listener (map accepted served) ≡ (served, serving))
  unfolding run_listener
  run_listener_lem [] more = (refl, refl, refl)
  run_listener_lem (c ∷ served) more =
      let (ended, broken, going) = run_listener_lem served more in
      (
        ap (λ r. (c ∷ r.0, r.1)) ended,
        ap (λ r. (c ∷ r.0, r.1)) broken,
        ap (λ r. (c ∷ r.0, r.1)) going,
      )

  -- Whatever ends it, the loop over streams serves those accepted before.
  pub serve_streams_lem :
      (served : List C) (more : List (Acceptance C))
      → (serve_streams (map accepted served ++ context_ended ∷ more) ≡ served)
        × (serve_streams (map accepted served ++ accept_error ∷ more) ≡ served)
        × (serve_streams (map accepted served) ≡ served)
  unfolding serve_streams
  serve_streams_lem [] more = (refl, refl, refl)
  serve_streams_lem (c ∷ served) more =
      let (ended, broken, going) = serve_streams_lem served more in
      (ap (λ r. c ∷ r) ended, ap (λ r. c ∷ r) broken, ap (λ r. c ∷ r) going)
