-- ===== src/Proxy/Lifecycle/Closing.antt =====
-- A transport closes once, and for good.
use mcprelay.Base.{◌≡◌, refl, true, false, arith, inl, inr, Bool-cases, if◌then◌else◌}
use mcprelay.Proxy.Lifecycle.{
  Upstream, fresh_upstream, connected, Happening, started, failed, exited, asked_to_close, happen,
  Reaches, here, later,
}

-- The owner is told of the close exactly once, if at all.
abbrev pub IsSettled : Upstream → Type 0
IsSettled t = t.ended ≡ (if t.closed then 1 else 0)

pub happen-IsSettled : (h : Happening) (t : Upstream) → IsSettled t → IsSettled (happen h t)
unfolding happen
happen-IsSettled started t k = k
happen-IsSettled failed t k = ground (arith, k)
happen-IsSettled (exited clean) t k = ground (arith, k)
happen-IsSettled asked_to_close t k = ground (arith, k)

pub happen-closed : (h : Happening) (t : Upstream) → t.closed ≡ true → (happen h t).closed ≡ true
unfolding happen
happen-closed started t k = k
happen-closed failed t k = ground (arith, k)
happen-closed (exited clean) t k = ground (arith, k)
happen-closed asked_to_close t k = ground (arith, k)

reaches-IsSettled : {t u : Upstream} → Reaches t u → IsSettled t → IsSettled u
reaches-IsSettled here k = k
reaches-IsSettled (later h r) k = happen-IsSettled h _ (reaches-IsSettled r k)

reaches-closed : {t u : Upstream} → Reaches t u → t.closed ≡ true → u.closed ≡ true
reaches-closed here k = k
reaches-closed (later h r) k = happen-closed h _ (reaches-closed r k)

-- However often the child fails or exits and the transport is closed, in whatever order, its owner is
-- told of the close once, when it closes, and never before; from then on the transport stays closed
-- and is not connected again.
pub reaches-closes_once :
    {t u : Upstream}
    → Reaches fresh_upstream t
    → Reaches t u
    → (t.ended ≡ (if t.closed then 1 else 0))
      × (u.ended ≡ (if u.closed then 1 else 0))
      × ((if t.closed then connected u else false) ≡ false)
reaches-closes_once {t} {u} before after =
    let settled = reaches-IsSettled before refl in
    (
      settled,
      reaches-IsSettled after settled,
      elim (Bool-cases t.closed) [
        | inl over ↦ ground (arith, over, reaches-closed after over)
        | inr open_still ↦ ground (arith, open_still)
      ],
    )
