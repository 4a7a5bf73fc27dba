-- ===== src/Proxy/Wiring/Relays.antt =====
-- What each relay of a bridge passes on.
use mathlib.Core.List.{append-nil}
use mcprelay.Base.{
  ◌≡◌, refl, sym, ◌∙◌, ap, Bool, true, false, String, Option, none, some, List, [], ◌∷◌, ◌++◌, ◌==◌,
  any, arith, if◌then◌else◌,
}
use mcprelay.Base.Parts.{IsPart, nothing, taken, IsPart-nil}
use mcprelay.Proxy.Links.{
  Link, LinkState, LinkHappening, stdio_link, http_link, child_happens, http_ended, send_batch,
  link_connected, is_stdio, state_is_stdio, happen_state,
}
use mcprelay.Proxy.Wiring.{
  Sdk, Notification, Request, BridgeState, batch_unsupported, relay_client_batch,
  relay_upstream_batch, relay_client_notification, relay_upstream_notification, is_progress,
}
use mcprelay.Proxy.Wiring.Start.{
  Occurrence, client_batch, upstream_batch, client_notifies, upstream_notifies, upstream_asks,
}

-- The lines that the client is to be sent as they are, over stdio or over HTTP.
abbrev pub to_client : Sdk → Bool → Occurrence → List String
to_client sdk stdio (upstream_batch line) = if stdio then line ∷ [] else []
to_client sdk stdio (client_batch line) = if stdio then [] else batch_unsupported ∷ []
to_client sdk stdio (upstream_notifies n) = if is_progress n then [] else sdk.serialize n ∷ []
to_client sdk stdio _ = []

-- The notifications that the client sends.
abbrev pub from_client : Occurrence → List Notification
from_client (client_notifies n failure) = n ∷ []
from_client _ = []

abbrev pub relayed_methods : List String
relayed_methods = "sampling/createMessage" ∷ "elicitation/create" ∷ "roots/list" ∷ []

-- The requests that a client is to answer.
abbrev pub requests : Occurrence → List Request
requests (upstream_asks r) = if any (λ m. r.method == m) relayed_methods then r ∷ [] else []
requests _ = []

abbrev pub all {ℓ} : {A : Type ℓ} → (Occurrence → List A) → List Occurrence → List A
all part [] = []
all part (o ∷ os) = part o ++ all part os

-- What was passed on between two states of a bridge.
pub record IsRelayed (b c : BridgeState) (lines : List String) (notes : List Notification)
    (asked : List Request) : Type 0 where
  pub kind : is_stdio c.link ≡ is_stdio b.link
  pub client : c.client_raw ≡ b.client_raw ++ lines
  pub http : is_stdio b.link ≡ false → c.link.raw ≡ b.link.raw
  pub told : List Notification
  pub is_part : IsPart told notes
  pub upstream : c.upstream_told ≡ b.upstream_told ++ told
  pub pinned : b.pinned ≡ true → c.pinned ≡ true
  pub requests : b.pinned ≡ true → c.client_asked ≡ b.client_asked ++ asked

pub happen_state-kind :
    (h : LinkHappening) (s : LinkState) → state_is_stdio (happen_state h s) ≡ state_is_stdio s
happen_state-kind (child_happens h) (stdio_link t) = refl
happen_state-kind (child_happens h) (http_link s c told) = refl
happen_state-kind http_ended (stdio_link t) = refl
happen_state-kind http_ended (http_link s c told) = refl

-- Nothing is passed on.
pub quiet :
    (b c : BridgeState)
    → is_stdio c.link ≡ is_stdio b.link
    → c.link.raw ≡ b.link.raw
    → c.client_raw ≡ b.client_raw
    → c.upstream_told ≡ b.upstream_told
    → c.client_asked ≡ b.client_asked
    → (b.pinned ≡ true → c.pinned ≡ true)
    → IsRelayed b c [] [] []
quiet b c k h r u a p = record {
  kind = k;
  client = r ∙ sym (append-nil b.client_raw);
  http = λ e. h;
  told = [];
  is_part = nothing;
  upstream = u ∙ sym (append-nil b.upstream_told);
  pinned = p;
  requests = λ e. a ∙ sym (append-nil b.client_asked);
}

IsRelayed-if :
    (test : Bool) (b c d : BridgeState) (lines : Bool → List String) (notes : List Notification)
    → (test ≡ true → IsRelayed b c (lines true) notes [])
    → (test ≡ false → IsRelayed b d (lines false) notes [])
    → IsRelayed b (if test then c else d) (lines test) notes []
IsRelayed-if true b c d lines notes h k = h refl
IsRelayed-if false b c d lines notes h k = k refl

-- One line is written to the client.
written :
    (b c : BridgeState) (line : String)
    → is_stdio c.link ≡ is_stdio b.link
    → c.link.raw ≡ b.link.raw
    → c.client_raw ≡ b.client_raw ++ line ∷ []
    → c.upstream_told ≡ b.upstream_told
    → c.client_asked ≡ b.client_asked
    → c.pinned ≡ b.pinned
    → IsRelayed b c (line ∷ []) [] []
written b c line k h r u a p = record {
  kind = k;
  client = r;
  http = λ e. h;
  told = [];
  is_part = nothing;
  upstream = u ∙ sym (append-nil b.upstream_told);
  pinned = λ e. p ∙ e;
  requests = λ e. a ∙ sym (append-nil b.client_asked);
}

send_batch-kind : (line : String) (l : Link) → is_stdio (send_batch line l) ≡ is_stdio l
unfolding send_batch
send_batch-kind line l = ground arith

pub client_batch-IsRelayed :
    (sdk : Sdk) (line : String) (b : BridgeState)
    → IsRelayed b
        (relay_client_batch line b)
        (to_client sdk (is_stdio b.link) (client_batch line))
        []
        []
unfolding relay_client_batch
client_batch-IsRelayed sdk line b =
    IsRelayed-if (is_stdio b.link) b _ _ (λ stdio. to_client sdk stdio (client_batch line)) []
      (λ e. record {
        kind = send_batch-kind line b.link;
        client = sym (append-nil b.client_raw);
        http = λ f. absurd cc;
        told = [];
        is_part = nothing;
        upstream = sym (append-nil b.upstream_told);
        pinned = λ f. f;
        requests = λ f. sym (append-nil b.client_asked);
      })
      (λ e. written b _ batch_unsupported refl refl refl refl refl refl)

pub upstream_batch-IsRelayed :
    (sdk : Sdk) (line : String) (b : BridgeState)
    → IsRelayed b
        (relay_upstream_batch line b)
        (to_client sdk (is_stdio b.link) (upstream_batch line))
        []
        []
unfolding relay_upstream_batch
upstream_batch-IsRelayed sdk line b =
    IsRelayed-if (is_stdio b.link) b _ _ (λ stdio. to_client sdk stdio (upstream_batch line)) []
      (λ e. written b _ line refl refl refl refl refl refl)
      (λ e. quiet b b refl refl refl refl refl (λ f. f))

pub upstream_notification-IsRelayed :
    (sdk : Sdk) (n : Notification) (b : BridgeState)
    → IsRelayed b
        (relay_upstream_notification sdk n b)
        (if is_progress n then [] else sdk.serialize n ∷ [])
        []
        []
unfolding relay_upstream_notification
upstream_notification-IsRelayed sdk n b =
    IsRelayed-if (is_progress n) b _ _ (λ test. if test then [] else sdk.serialize n ∷ []) []
      (λ e. quiet b b refl refl refl refl refl (λ f. f))
      (λ e. written b _ (sdk.serialize n) refl refl refl refl refl refl)

-- A notification of the client that is sent, and one that is not.
noted :
    (b c : BridgeState) (n : Notification) (told : List Notification)
    → IsPart told (n ∷ [])
    → c.link ≡ b.link
    → c.client_raw ≡ b.client_raw
    → c.upstream_told ≡ b.upstream_told ++ told
    → c.client_asked ≡ b.client_asked
    → c.pinned ≡ b.pinned
    → IsRelayed b c [] (n ∷ []) []
noted b c n told part l r u a p = record {
  kind = ap is_stdio l;
  client = r ∙ sym (append-nil b.client_raw);
  http = λ e. ap (λ (link : Link). link.raw) l;
  told = told;
  is_part = part;
  upstream = u;
  pinned = λ e. p ∙ e;
  requests = λ e. a ∙ sym (append-nil b.client_asked);
}

unsent :
    (b c : BridgeState) (n : Notification)
    → c.link ≡ b.link
    → c.client_raw ≡ b.client_raw
    → c.upstream_told ≡ b.upstream_told
    → c.client_asked ≡ b.client_asked
    → c.pinned ≡ b.pinned
    → IsRelayed b c [] (n ∷ []) []
unsent b c n l r u a p =
    noted b c n [] (IsPart-nil (n ∷ [])) l r (u ∙ sym (append-nil b.upstream_told)) a p

pub client_notification-IsRelayed :
    (n : Notification) (failure : Option String) (b : BridgeState)
    → IsRelayed b (relay_client_notification n failure b) [] (n ∷ []) []
unfolding relay_client_notification
client_notification-IsRelayed n none b =
    IsRelayed-if (link_connected b.link) b _ _ (λ test. []) (n ∷ [])
      (λ e. noted b _ n (n ∷ []) (taken n nothing) refl refl refl refl refl)
      (λ e. unsent b _ n refl refl refl refl refl)
client_notification-IsRelayed n (some message) b =
    IsRelayed-if (link_connected b.link) b _ _ (λ test. []) (n ∷ [])
      (λ e. unsent b _ n refl refl refl refl refl) (λ e. unsent b _ n refl refl refl refl refl)
