-- ===== src/Proxy/Wiring/Wired.antt =====
-- The handlers of a bridge that was started, and what its two sides tell by them.
use mcprelay.Base.{
  ℕ, ◌≡◌, refl, Bool, true, false, Option, none, some, List, [], ◌∷◌, ◌++◌, not, ◌&&◌, ltb, arith,
  if◌then◌else◌,
}
use mcprelay.Proxy.Run.{Side, client_side, upstream_side}
use mcprelay.Proxy.Lifecycle.{
  Upstream, Happening, asked_to_close, ClientSide, ClientHappening, attached_stdin, stdin_ended,
  asked_to_detach, happen, happen_client,
}
use mcprelay.Proxy.Lifecycle.Closing.{IsSettled, happen-IsSettled, happen-closed}
use mcprelay.Proxy.Links.{
  LinkState, stdio_link, http_link, LinkHappening, child_happens, http_ended, CloseAct,
  resolve_closed, sdk_closed, happen_state, close_state, tells_close,
}
use mcprelay.Proxy.Wiring.{Sdk, BridgeState, run_acts, resolve_with}
use mcprelay.Proxy.Wiring.Start.{move_link, move_client, client_handlers, served}

-- Whether the owner of the link was told of its end.
abbrev pub is_over : LinkState → Bool
is_over (stdio_link t) = t.closed
is_over (http_link s c told) = told

abbrev pub IsSettledLink : LinkState → Type 0
IsSettledLink (stdio_link t) = IsSettled t
IsSettledLink (http_link s c told) = Unit

abbrev pub IsSettledClient : ClientSide → Type 0
IsSettledClient t = t.ended ≡ (if t.closed then 1 else 0)

-- The promise names a side that has ended, and is open where none has.
abbrev pub IsTold : Option Side → Bool → Bool → Type 0
IsTold none link client = (link ≡ false) × (client ≡ false)
IsTold (some client_side) link client = client ≡ true
IsTold (some upstream_side) link client = link ≡ true

-- A move of the link that keeps what is over, and tells of it once.
pub record IsMove (s t : LinkState) : Type 0 where
  pub settled : IsSettledLink t
  pub tells : tells_close s t ≡ (is_over t && not (is_over s))
  pub stays : is_over s ≡ true → is_over t ≡ true

tells_once :
    (m n : ℕ) (c d : Bool)
    → m ≡ (if c then 1 else 0)
    → n ≡ (if d then 1 else 0)
    → ltb m n ≡ (d && not c)
tells_once m n false false h k = ground (arith, h, k)
tells_once m n false true h k = ground (arith, h, k)
tells_once m n true false h k = ground (arith, h, k)
tells_once m n true true h k = ground (arith, h, k)

same_http : (s c d told : Bool) → IsMove (http_link s c told) (http_link s d told)
same_http s c d false = record { settled = tt; tells = refl; stays = λ e. e }
same_http s c d true = record { settled = tt; tells = refl; stays = λ e. e }

ended_http : (s c told : Bool) → IsMove (http_link s c told) (http_link s c true)
ended_http s c false = record { settled = tt; tells = refl; stays = λ e. refl }
ended_http s c true = record { settled = tt; tells = refl; stays = λ e. refl }

child-IsMove :
    (h : Happening) (t : Upstream) → IsSettled t → IsMove (stdio_link t) (stdio_link (happen h t))
child-IsMove h t k =
    let settled = happen-IsSettled h t k in
    record {
      settled = settled;
      tells = tells_once t.ended (happen h t).ended t.closed (happen h t).closed k settled;
      stays = happen-closed h t;
    }

still-IsMove : (t : Upstream) → IsSettled t → IsMove (stdio_link t) (stdio_link t)
still-IsMove t k = record {
  settled = k;
  tells = tells_once t.ended t.ended t.closed t.closed k k;
  stays = λ e. e;
}

pub happen_state-IsMove :
    (h : LinkHappening) (s : LinkState) → IsSettledLink s → IsMove s (happen_state h s)
happen_state-IsMove (child_happens h) (stdio_link t) k = child-IsMove h t k
happen_state-IsMove (child_happens h) (http_link s c told) k = same_http s c c told
happen_state-IsMove http_ended (stdio_link t) k = still-IsMove t k
happen_state-IsMove http_ended (http_link s c told) k = ended_http s c told

pub close_state-IsMove :
    (tells : Bool) (s : LinkState) → IsSettledLink s → IsMove s (close_state tells s)
close_state-IsMove tells (stdio_link t) k = child-IsMove asked_to_close t k
close_state-IsMove true (http_link s c false) k = record {
  settled = tt;
  tells = refl;
  stays = λ e. refl;
}
close_state-IsMove true (http_link s c true) k = record {
  settled = tt;
  tells = refl;
  stays = λ e. e;
}
close_state-IsMove false (http_link s c false) k = record {
  settled = tt;
  tells = refl;
  stays = λ e. e;
}
close_state-IsMove false (http_link s c true) k = record {
  settled = tt;
  tells = refl;
  stays = λ e. e;
}

happen_client-settled :
    (h : ClientHappening) (t : ClientSide) → IsSettledClient t → IsSettledClient (happen_client h t)
unfolding happen_client
happen_client-settled attached_stdin t k = k
happen_client-settled stdin_ended t k = ground (arith, k)
happen_client-settled asked_to_detach t k = ground (arith, k)

pub happen_client-closed :
    (h : ClientHappening) (t : ClientSide) → t.closed ≡ true → (happen_client h t).closed ≡ true
unfolding happen_client
happen_client-closed attached_stdin t k = k
happen_client-closed stdin_ended t k = ground (arith, k)
happen_client-closed asked_to_detach t k = ground (arith, k)

-- The link goes from `was` to `now`, and the promise is resolved where it is over now.
IsTold-link :
    (closed : Option Side) (was now client : Bool)
    → (was ≡ true → now ≡ true)
    → IsTold closed was client
    → IsTold (if now && not was then resolve_with upstream_side closed else closed) now client
IsTold-link none false false client h k = k
IsTold-link none false true client h k = refl
IsTold-link none true now client h (k, l) = absurd cc
IsTold-link (some client_side) false false client h k = k
IsTold-link (some client_side) false true client h k = k
IsTold-link (some client_side) true false client h k = k
IsTold-link (some client_side) true true client h k = k
IsTold-link (some upstream_side) false false client h k = k
IsTold-link (some upstream_side) false true client h k = refl
IsTold-link (some upstream_side) true false client h k = h k
IsTold-link (some upstream_side) true true client h k = k

IsTold-client :
    (closed : Option Side) (link was now : Bool)
    → (was ≡ true → now ≡ true)
    → IsTold closed link was
    → IsTold (if now && not was then resolve_with client_side closed else closed) link now
IsTold-client none link false false h k = k
IsTold-client none link false true h k = refl
IsTold-client none link true now h (k, l) = absurd cc
IsTold-client (some upstream_side) link false false h k = k
IsTold-client (some upstream_side) link false true h k = k
IsTold-client (some upstream_side) link true false h k = k
IsTold-client (some upstream_side) link true true h k = k
IsTold-client (some client_side) link false false h k = k
IsTold-client (some client_side) link false true h k = refl
IsTold-client (some client_side) link true false h k = h k
IsTold-client (some client_side) link true true h k = k

abbrev pub link_handlers : List CloseAct
link_handlers = resolve_closed upstream_side ∷ sdk_closed ∷ []

-- A bridge whose handlers are in place.
pub record IsWired (sdk : Sdk) (b : BridgeState) : Type 0 where
  pub link_acts : b.link.onclose ≡ link_handlers
  pub client_acts : b.client_onclose ≡ client_handlers sdk
  pub settled_link : IsSettledLink b.link.state
  pub settled_client : IsSettledClient b.client
  pub told : IsTold b.closed (is_over b.link.state) b.client.closed

run_acts-client :
    (chains : Bool) (closed : Option Side)
    → run_acts
        (served chains (resolve_closed client_side ∷ []) ++ resolve_closed client_side ∷ [])
        closed
      ≡ resolve_with client_side closed
unfolding run_acts
run_acts-client true none = refl
run_acts-client true (some side) = refl
run_acts-client false closed = refl

module _ (sdk : Sdk) where
  pub move_link-IsWired :
      (state : LinkState) (b : BridgeState)
      → IsMove b.link.state state
      → IsWired sdk b
      → IsWired sdk (move_link state b)
  unfolding move_link run_acts
  move_link-IsWired state b m w = record {
    link_acts = w.link_acts;
    client_acts = w.client_acts;
    settled_link = m.settled;
    settled_client = w.settled_client;
    told =
        rw (m.tells, w.link_acts)
          (IsTold-link b.closed (is_over b.link.state) (is_over state) b.client.closed m.stays
            w.told);
  }

  pub move_client-IsWired :
      (h : ClientHappening) (b : BridgeState) → IsWired sdk b → IsWired sdk (move_client h b)
  unfolding move_client
  move_client-IsWired h b w =
      let settled = happen_client-settled h b.client w.settled_client in
      let tells =
        tells_once b.client.ended (happen_client h b.client).ended b.client.closed
          (happen_client h b.client).closed w.settled_client settled in
      record {
        link_acts = w.link_acts;
        client_acts = w.client_acts;
        settled_link = w.settled_link;
        settled_client = settled;
        told =
            rw (tells, w.client_acts, run_acts-client sdk.server_chains b.closed)
              (IsTold-client b.closed (is_over b.link.state) b.client.closed
                (happen_client h b.client).closed (happen_client-closed h b.client) w.told);
      }
