-- ===== src/Proxy/Lifecycle.antt =====
-- src/proxy/transports.ts, UpstreamTransport and ClientTransport: when a transport is connected and
-- when it tells its owner that it is closed.
pub mod Closing
use mcprelay.Base.{ℕ, suc, Bool, true, false, not, ◌&&◌, ◌||◌, if◌then◌else◌}

-- `ended` and `errors` count the calls of `onclose` and `onerror`, `stopped` those of `kill`.
pub record Upstream : Type 0 where
  pub spawned : Bool
  pub closed : Bool
  pub closing : Bool
  pub ended : ℕ
  pub errors : ℕ
  pub stopped : ℕ

abbrev pub fresh_upstream : Upstream
fresh_upstream = record {
  spawned = false;
  closed = false;
  closing = false;
  ended = 0;
  errors = 0;
  stopped = 0;
}

abbrev pub connected : Upstream → Bool
connected t = t.spawned && not t.closed

abbrev finish : Upstream → Upstream
finish t = if t.closed then t else record t { closed = true; ended = suc t.ended }

-- What happens to the transport. `exited` says whether the code was 0 and there was no signal.
pub data Happening : Type 0 where
  started failed : Happening
  exited : Bool → Happening
  asked_to_close : Happening

abbrev watch_exit : Bool → Upstream → Upstream
watch_exit clean t = if not t.closing && not clean then record t { errors = suc t.errors } else t

abbrev stop_child : Upstream → Upstream
stop_child t = record t { closing = true; stopped = if t.spawned then suc t.stopped else t.stopped }

unfoldable pub happen : Happening → Upstream → Upstream
happen started t = record t { spawned = true }
happen failed t = finish (record t { errors = suc t.errors })
happen (exited clean) t = finish (watch_exit clean t)
happen asked_to_close t = if t.closed then t else finish (stop_child t)

-- Any sequence of happenings.
pub data Reaches (t : Upstream) : Upstream → Type 0 where
  here : Reaches t t
  later : {u : Upstream} (h : Happening) → Reaches t u → Reaches t (happen h u)

-- `attached` is whether the handlers of stdin are in place.
pub record ClientSide : Type 0 where
  pub attached : Bool
  pub closed : Bool
  pub ended : ℕ

pub data ClientHappening : Type 0 where
  attached_stdin stdin_ended asked_to_detach : ClientHappening

abbrev finish_client : ClientSide → ClientSide
finish_client t = if t.closed then t else record t { closed = true; ended = suc t.ended }

unfoldable pub happen_client : ClientHappening → ClientSide → ClientSide
happen_client attached_stdin t = record t { attached = true }
happen_client stdin_ended t = finish_client t
happen_client asked_to_detach t =
    if t.closed then t else finish_client (record t { attached = false })
